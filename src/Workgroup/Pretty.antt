-- ===== src/Workgroup/Pretty.antt =====
-- `wgConfigString` and `prettifyWGConfig` of go/wgconfig.go: the text of a workgroup's
-- configuration, over what reflection sees of it. `strconv.Quote`, the `%q` of fmt, is a parameter.
pub mod Render
use athenadriver.Base.{
  ℕ, ◌+◌, Bool, true, false, not, ◌||◌, [], ◌∷◌, ◌++◌, Option, none, some, if◌then◌else◌, Bytes,
  codes, replicate,
}
use athenadriver.Decimal.{ℤ, format_int}
use athenadriver.Errors.{Outcome, returned, panics, ◌>>=◌}

-- A `reflect.Value`. Of a slice or a map it is known whether it is nil, and fmt's text of it. A field is
-- exported or not, and has a name.
mutual
  pub data GoData : Type 0 where
    struct : GoFields → GoData
    pointer : GoData → GoData
    nil_pointer : GoData
    string : Bytes → GoData
    boolean : Bool → GoData
    integer : ℤ → GoData
    collection : Bool → Bytes → GoData

  pub data GoFields : Type 0 where
    no_field : GoFields
    field : Bool → Bytes → GoData → GoFields → GoFields

abbrev pub is_unset : GoData → Bool
is_unset (struct fs) = false
is_unset (pointer v) = false
is_unset nil_pointer = true
is_unset (string []) = true
is_unset (string (c ∷ s)) = false
is_unset (boolean b) = false
is_unset (integer z) = false
is_unset (collection is_nil text) = is_nil

abbrev pub spaces : ℕ → Bytes
spaces n = replicate n b' '

abbrev pub new_line : Bytes
new_line = 10 ∷ []

module _ (quote : Bytes → Bytes) where
  -- A nil pointer behind a pointer has no value, and printing it panics.
  unfoldable mutual
    pub prettify_wg_config : GoData → ℕ → Bytes → Outcome Bytes
    prettify_wg_config (struct fs) indent buf =
        prettify_fields fs indent true (buf ++ codes "{" ++ new_line) >>= λ b.
        returned (b ++ new_line ++ spaces indent ++ codes "}")
    prettify_wg_config (pointer v) indent buf = prettify_wg_config v indent buf
    prettify_wg_config nil_pointer indent buf = panics
    prettify_wg_config (string s) indent buf = returned (buf ++ quote s)
    prettify_wg_config (boolean b) indent buf =
        returned (buf ++ (if b then codes "true" else codes "false"))
    prettify_wg_config (integer z) indent buf = returned (buf ++ format_int z)
    prettify_wg_config (collection is_nil text) indent buf = returned (buf ++ text)

    pub prettify_fields : GoFields → ℕ → Bool → Bytes → Outcome Bytes
    prettify_fields no_field indent first buf = returned buf
    prettify_fields (field exported name v fs) indent first buf =
        if not exported || is_unset v
        then prettify_fields fs indent first buf
        else prettify_wg_config v (indent + 2) (
            (if first then buf else buf ++ codes "," ++ new_line)
            ++ spaces (indent + 2)
            ++ name
            ++ codes ": ")
          >>= λ b. prettify_fields fs indent false b

  -- A nil configuration is the text of braces around an empty line.
  unfoldable pub wg_config_string : Option GoData → Outcome Bytes
  unfolding prettify_wg_config
  wg_config_string none = returned (codes "{" ++ new_line ++ new_line ++ codes "}")
  wg_config_string (some c) = prettify_wg_config (pointer c) 0 []
