-- ===== src/Tests/Tidied.antt =====
-- The texts of queries without their comments, at concrete inputs.
use athenadriver.Base.{[], ◌∷◌, codes, true, ◌≡◌, refl}
use athenadriver.Tidy.{get_table_names_in_query, strip_comments, one_line_comment}
use athenadriver.Tidy.Comments.{HasNone, strip_comments-HasNone}

tables :
    get_table_names_in_query (codes "SELECT * from abc JOIN s.t\nfrom /* x */\n abc")
    ≡ codes "default.abc" ∷ codes "s.t" ∷ []
unfolding get_table_names_in_query athenadriver.Strings.to_lower
tables = refl

greedy :
    strip_comments (codes "select /* a */ x, /* b */ y -- c\nfrom t") ≡ codes "select y\nfrom t"
unfolding strip_comments
greedy = refl

strip_comments-HasNone_example :
    HasNone one_line_comment true (strip_comments (codes "-- a\n--b\nselect 1 --c"))
strip_comments-HasNone_example = strip_comments-HasNone (codes "-- a\n--b\nselect 1 --c")
