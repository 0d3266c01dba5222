-- ===== src/Rows/Convert.antt =====
-- `convertRecord`, `athenaTypeToGoType` and `getDefaultValueForColumnType` of go/rows.go, and
-- go/datetime.go: the texts of a record as Go values.
-- `Library` is the parameter for the functions of Go's library: `strconv.ParseFloat` of 32 and 64
-- bits, which gives the bits of a float64, `time.LoadLocation`, and `time.ParseInLocation` of a
-- layout, a text and the name of a zone. Their errors have no text here.
pub mod Laws
pub mod Mask
pub mod Row
use athenadriver.Base.{
  ℕ, suc, Bool, true, false, ◌||◌, ◌&&◌, not, leb, ◌==◌, List, [], ◌∷◌, ◌++◌, Option, none, some,
  if◌then◌else◌, Bytes, codes, bytes_eq,
}
use athenadriver.Config.Flags.{
  check_column_masked, is_missing_as_nil, is_missing_as_empty_string, is_missing_as_default,
}
use athenadriver.Config.Groups.{get_workgroup}
use athenadriver.Config.{Config}
use athenadriver.Decimal.{ℤ, pos, parse_int}
use athenadriver.Errors.{
  Error, Outcome, returned, failed, panics, unfinished, message, or_panic, ◌>>=◌,
}
use athenadriver.GoTime.{Time, seconds_before}
use athenadriver.Rows.Page.{ColumnInfo}
use athenadriver.Strings.{split}

-- What a column's value becomes; `int` is Go's `int`, and a float is the bits of its float64.
pub data GoValue : Type 0 where
  nil : GoValue
  int int8 int16 int32 int64 : ℤ → GoValue
  float32 float64 : ℕ → GoValue
  boolean : Bool → GoValue
  time : Time → GoValue
  text : Bytes → GoValue

pub record Library : Type 0 where
  pub parse_float32 : Bytes → Option ℕ
  pub parse_float64 : Bytes → Option ℕ
  pub load_location : Bytes → Option Bytes
  pub parse_in_location : Bytes → Bytes → Bytes → Option Time

abbrev pub time_layouts : List Bytes
time_layouts =
    codes "2006-01-02"
    ∷ codes "15:04:05.000"
    ∷ codes "2006-01-02 15:04:05.000000000"
    ∷ codes "2006-01-02 15:04:05.000000"
    ∷ codes "2006-01-02 15:04:05.000"
    ∷ []

abbrev pub zero_time : Time
zero_time = record { seconds = seconds_before; nanos = 0 }

-- Whether the name is in the list, a `case` of a `switch`.
one_of : List Bytes → Bytes → Bool
one_of [] name = false
one_of (n ∷ ns) name = bytes_eq n name || one_of ns name

abbrev is_time : Bytes → Bool
is_time t =
    one_of
      (codes "date"
        ∷ codes "time"
        ∷ codes "time with time zone"
        ∷ codes "timestamp"
        ∷ codes "timestamp with time zone"
        ∷ [])
      t

abbrev is_text : Bytes → Bool
is_text t =
    one_of
      (codes "json"
        ∷ codes "char"
        ∷ codes "varchar"
        ∷ codes "varbinary"
        ∷ codes "row"
        ∷ codes "string"
        ∷ codes "binary"
        ∷ codes "struct"
        ∷ codes "interval year to month"
        ∷ codes "interval day to second"
        ∷ codes "decimal"
        ∷ codes "ipaddress"
        ∷ codes "array"
        ∷ codes "map"
        ∷ codes "unknown"
        ∷ [])
      t

unfoldable pub get_default_value_for_column_type : Bytes → GoValue
unfolding one_of
get_default_value_for_column_type t =
    if one_of (codes "tinyint" ∷ codes "smallint" ∷ codes "integer" ∷ codes "bigint" ∷ []) t
    then int (pos 0)
    else if bytes_eq t (codes "boolean")
    then boolean false
    else if one_of (codes "float" ∷ codes "double" ∷ codes "real" ∷ []) t
    then float64 0
    else if is_time t
    then time zero_time
    else text []

-- The value, or the error of a parse.
abbrev parsed {ℓ} : {A : Type ℓ} → Option A → Outcome A
parsed none = failed (message (codes "parse error"))
parsed (some a) = returned a

-- The last part of a text that was split.
abbrev last_part : List Bytes → Bytes
last_part [] = []
last_part (p ∷ []) = p
last_part (p ∷ ps) = last_part ps

abbrev several : List Bytes → Bool
several [] = false
several (p ∷ []) = false
several (p ∷ q ∷ ps) = true

-- `unicode.IsDigit` of a byte
abbrev is_digit : ℕ → Bool
is_digit c = leb b'0' c && leb c b'9'

-- `strings.LastIndex(v, " ")`, as what stands before and behind it.
unfoldable pub cut_last_space : Bytes → Option (Bytes × Bytes)
cut_last_space [] = none
cut_last_space (c ∷ v) = elim (cut_last_space v) [
  | some (a, b) ↦ some (c ∷ a, b)
  | none ↦ if c == b' ' then some ([], v) else none
]

module _ (library : Library) where
  unfoldable pub parse_layouts : List Bytes → Bytes → Bytes → Outcome Time
  parse_layouts [] v zone = parsed none
  parse_layouts (l ∷ ls) v zone = elim (library.parse_in_location l v zone) [
    | some t ↦ returned t
    | none ↦ parse_layouts ls v zone
  ]

  unfoldable pub parse_athena_time : Bytes → Outcome Time
  unfolding parse_layouts
  parse_athena_time v = parse_layouts time_layouts v (codes "Local")

  abbrev in_zone : Option (Bytes × Bytes) → Outcome Time
  in_zone none = failed (message (codes "cannot convert to time+zone"))
  in_zone (some (stamp, location)) = elim (library.load_location location) [
    | none ↦ failed (message (codes "cannot load timezone"))
    | some zone ↦ parse_layouts time_layouts stamp zone
  ]

  unfoldable pub parse_athena_time_with_location : Bytes → Outcome Time
  unfolding parse_layouts cut_last_space
  parse_athena_time_with_location v = in_zone (cut_last_space v)

  -- The first byte of the last part; an empty part has none.
  abbrev by_last : Bytes → Bytes → Outcome Time
  by_last v [] = panics
  by_last v (c ∷ part) =
      if is_digit c then parse_athena_time v else parse_athena_time_with_location v

  unfoldable pub scan_time : Bytes → Outcome Time
  unfolding parse_athena_time parse_athena_time_with_location
  scan_time v =
      if several (split v b' ') then by_last v (last_part (split v b' ')) else parse_athena_time v

  abbrev to_boolean : Bytes → Outcome GoValue
  to_boolean v =
      if bytes_eq v (codes "true")
      then returned (boolean true)
      else if bytes_eq v (codes "false")
      then returned (boolean false)
      else failed (message (codes "unknown value for boolean"))

  -- The `switch` on the column's type, for a value that is there.
  unfoldable pub convert_value : Bytes → Bytes → Outcome GoValue
  unfolding scan_time one_of
  convert_value t v =
      if bytes_eq t (codes "tinyint")
      then (parsed (parse_int 7 v) >>= λ z. returned (int8 z))
      else if bytes_eq t (codes "smallint")
      then (parsed (parse_int 15 v) >>= λ z. returned (int16 z))
      else if bytes_eq t (codes "integer")
      then (parsed (parse_int 31 v) >>= λ z. returned (int32 z))
      else if bytes_eq t (codes "bigint")
      then (parsed (parse_int 63 v) >>= λ z. returned (int64 z))
      else if bytes_eq t (codes "float") || bytes_eq t (codes "real")
      then (parsed (library.parse_float32 v) >>= λ f. returned (float32 f))
      else if bytes_eq t (codes "double")
      then (parsed (library.parse_float64 v) >>= λ f. returned (float64 f))
      else if is_text t
      then returned (text v)
      else if bytes_eq t (codes "boolean")
      then to_boolean v
      else if is_time t
      then (scan_time v >>= λ m. returned (time m))
      else failed (message (codes "unknown type"))

  abbrev missing : Config → Option Bytes → Outcome GoValue
  missing config t =
      if is_missing_as_nil config
      then returned nil
      else if is_missing_as_empty_string config
      then returned (text [])
      else if is_missing_as_default config
      then (or_panic t >>= λ t'. returned (get_default_value_for_column_type t'))
      else failed (message (codes "Missing data at column"))

  -- A raw value, for a column that is not masked. The log of a missing one names the workgroup.
  abbrev unmasked : Config → Option Bytes → Option Bytes → Outcome GoValue
  unmasked config t none = get_workgroup config >>= λ wg. missing config t
  unmasked config t (some v) = or_panic t >>= λ t'. convert_value t' v

  unfoldable pub athena_type_to_go_type : ColumnInfo → Option Bytes → Config → Outcome GoValue
  unfolding convert_value get_default_value_for_column_type
  athena_type_to_go_type column raw config = check_column_masked config column.name >>= λ m.
      elim m [
        | some masked ↦ returned (text masked)
        | none ↦ unmasked config column.column_type raw
      ]

  -- An empty text stands for no value.
  abbrev raw_value : Bytes → Option Bytes
  raw_value [] = none
  raw_value (b ∷ v) = some (b ∷ v)

  -- The values of the record at the front of `ret`, whose other places are kept. What an error
  -- leaves in `ret` is not modelled, since the caller then has no row.
  unfoldable pub convert_record :
      List ColumnInfo → List Bytes → List GoValue → Config → Outcome (List GoValue)
  unfolding athena_type_to_go_type
  convert_record columns [] ret config = returned ret
  convert_record [] (v ∷ vs) ret config = panics
  convert_record (c ∷ cs) (v ∷ vs) [] config =
      athena_type_to_go_type c (raw_value v) config >>= λ a. panics
  convert_record (c ∷ cs) (v ∷ vs) (r ∷ ret) config =
      athena_type_to_go_type c (raw_value v) config >>= λ a.
      convert_record cs vs ret config >>= λ rest. returned (a ∷ rest)
