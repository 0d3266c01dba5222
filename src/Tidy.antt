-- ===== src/Tidy.antt =====
-- `GetTableNamesInQuery` and `GetTidySQL` of go/utils.go. Each of their regular expressions is a
-- matcher: how many bytes it matches at a place, none if it does not match there. The parser of SQL
-- is a parameter, which gives the text of the statement that it reads.
pub mod Comments
pub mod Lines
use athenadriver.Base.{
  ℕ, zero, suc, ◌+◌, Bool, true, false, ◌&&◌, ◌||◌, List, [], ◌∷◌, ◌++◌, Option, none, some, leb,
  ltb, ◌==◌, if◌then◌else◌, Bytes, codes, bytes_eq, drop, take,
}
use athenadriver.Config.{default_db_name}
use athenadriver.Strings.{has_prefix, to_lower, trim_blanks, index_byte}

-- `\s` and `[\w.]`
abbrev pub is_white : ℕ → Bool
is_white c = c == b' ' || c == 9 || c == 10 || c == 12 || c == 13

abbrev is_word : ℕ → Bool
is_word c =
    (leb b'0' c && leb c b'9')
    || (leb b'A' c && leb c b'Z')
    || (leb b'a' c && leb c b'z')
    || c == b'_'
    || c == b'.'

-- How many bytes at the front pass the test.
abbrev pub count_while : (ℕ → Bool) → Bytes → ℕ
count_while p [] = 0
count_while p (c ∷ s) = if p c then suc (count_while p s) else 0

abbrev pub not_newline : ℕ → Bool
not_newline c = if c == 10 then false else true

-- The bytes through the last `*/` of the line.
unfoldable pub closing : Bytes → Option ℕ
closing [] = none
closing (c ∷ s) =
    let rest = closing s in
    if c == 10 then none else elim rest [
      | some n ↦ some (suc n)
      | none ↦ if c == b'*' && has_prefix s (codes "/") then some 2 else none
    ]

-- `multiLineCommentPattern`, the regular expression `\/\*(.*)\*/\s*`; the dot matches no newline.
-- Like the others, it is told whether the place is the start of the text.
unfoldable pub multi_line_comment : Bool → Bytes → ℕ
unfolding closing
multi_line_comment first s =
    if has_prefix s (codes "/*")
    then elim (closing (drop 2 s)) [
      | none ↦ 0
      | some n ↦ 2 + n + count_while is_white (drop n (drop 2 s))
    ]
    else 0

-- A length that is at least one, behind `n` bytes.
abbrev pub behind : ℕ → ℕ → ℕ
behind n zero = 0
behind n (suc k) = n + suc k

abbrev pub dashes : ℕ → Bytes → ℕ
dashes n s =
    if has_prefix s (codes "--") then behind (n + 2) (count_while not_newline (drop 2 s)) else 0

abbrev pub white_dashes : Bytes → ℕ
white_dashes [] = 0
white_dashes (c ∷ s) = if is_white c then dashes 1 s else 0

-- `oneLineCommentPattern`, the regular expression `(^\-\-[^\n]+|\s--[^\n]+)`.
unfoldable pub one_line_comment : Bool → Bytes → ℕ
one_line_comment first s = if first && ltb 0 (dashes 0 s) then dashes 0 s else white_dashes s

-- `dualPattern`, the regular expression `from dual`.
unfoldable pub dual : Bool → Bytes → ℕ
dual first s = if has_prefix s (codes "from dual") then 9 else 0

-- What follows where nothing is matched, or a first byte and `n` more.
abbrev pub after_match : ℕ → Bytes → (ℕ → Bytes) → Bytes
after_match zero kept dropped = kept
after_match (suc n) kept dropped = dropped n

-- `ReplaceAllString` with the empty text; `skip` bytes of a match are still to be dropped.
unfoldable pub remove_all : (Bool → Bytes → ℕ) → Bool → ℕ → Bytes → Bytes
remove_all match' first skip [] = []
remove_all match' first (suc skip) (c ∷ s) = remove_all match' false skip s
remove_all match' first zero (c ∷ s) =
    after_match (match' first (c ∷ s)) (c ∷ remove_all match' false 0 s)
      (λ n. remove_all match' false n s)

unfoldable pub strip_comments : Bytes → Bytes
unfolding remove_all multi_line_comment one_line_comment
strip_comments query =
    remove_all one_line_comment true 0 (remove_all multi_line_comment true 0 query)

abbrev is_keyword : Bytes → Bool
is_keyword s =
    bytes_eq (to_lower (take 4 s)) (codes "from") || bytes_eq (to_lower (take 4 s)) (codes "join")

-- `getTableNamePattern`, the regular expression `(?i)\s+(?:from|join)\s+([\w.]+)`: the length of the
-- match, and the name in it.
abbrev named : ℕ → Bytes → Option (ℕ × Bytes)
named n s = elim (count_while is_word s) [ zero ↦ none | suc k ↦ some (n + suc k, take (suc k) s) ]

abbrev behind_keyword : ℕ → Bytes → Option (ℕ × Bytes)
behind_keyword n s = elim (count_while is_white s) [
  | zero ↦ none
  | suc k ↦ named (n + suc k) (drop (suc k) s)
]

unfoldable pub table_name : Bytes → Option (ℕ × Bytes)
table_name s = elim (count_while is_white s) [
  | zero ↦ none
  | suc k ↦
      if is_keyword (drop (suc k) s) then behind_keyword (suc k + 4) (drop (suc k + 4) s) else none
]

-- `FindAllStringSubmatch`: the names of the matches.
unfoldable pub find_all : ℕ → Bytes → List Bytes
unfolding table_name
find_all skip [] = []
find_all (suc skip) (c ∷ s) = find_all skip s
find_all zero (c ∷ s) = elim (table_name (c ∷ s)) [
  | none ↦ find_all 0 s
  | some (zero, name) ↦ find_all 0 s
  | some (suc n, name) ↦ name ∷ find_all n s
]

abbrev qualified : Bytes → Bytes
qualified name = elim (index_byte name b'.') [
  | none ↦ default_db_name ++ codes "." ++ name
  | some i ↦ name
]

-- A write of `true` under a key of a map.
abbrev insert : Bytes → List Bytes → List Bytes
insert k [] = k ∷ []
insert k (j ∷ ks) = if bytes_eq j k then j ∷ ks else j ∷ insert k ks

abbrev collect : List Bytes → List Bytes → List Bytes
collect tables [] = tables
collect tables (name ∷ names) = collect (insert (qualified name) tables) names

unfoldable pub get_table_names_in_query : Bytes → List Bytes
unfolding strip_comments find_all index_byte
get_table_names_in_query query = collect [] (find_all 0 (strip_comments query))

abbrev contains : Bytes → Bytes → Bool
contains [] t = has_prefix [] t
contains (c ∷ s) t = has_prefix (c ∷ s) t || contains s t

abbrev tidied : Bytes → Option Bytes → Bytes
tidied query none = trim_blanks query
tidied query (some q) =
    if bytes_eq q (codes "otherread")
      || bytes_eq q (codes "otheradmin")
      || contains q (codes " '$path' ")
    then trim_blanks query
    else trim_blanks (remove_all dual true 0 q)

unfoldable pub get_tidy_sql : (Bytes → Option Bytes) → Bytes → Bytes
unfolding strip_comments trim_blanks
get_tidy_sql parse query = tidied (strip_comments query) (parse (strip_comments query))
