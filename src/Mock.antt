-- ===== src/Mock.antt =====
-- The makers of rows and pages in go/utils.go, which the repository tests with.
-- `Random` is the parameter for math/rand, over the state of its generator, and for the texts of
-- strconv and time: `rand.Intn` and `rand.Int63n` of a bound, `rand.Uint64`, a `rand.Float64` that
-- `FormatFloat` writes with six digits for 32 or 64 bits, and `time.Unix(sec, 0).Format(layout)`.
pub mod Convert
pub mod Header
use athenadriver.Base.{
  ℕ, zero, suc, ◌+◌, ◌-◌, ◌%◌, Bool, leb, ◌==◌, List, [], ◌∷◌, map, Option, none, some,
  if◌then◌else◌, Bytes, codes, bytes_eq, length, get_elem?, ◌||◌, false,
}
use athenadriver.Decimal.{ℤ, pos, negsuc, format_uint, format_int}
use athenadriver.Errors.{Outcome, returned, panics, ◌>>=◌, or_panic}
use athenadriver.Rows.Page.{ColumnInfo, Datum, Row, ResultPage, new_row, new_column_info}

pub record Random (G : Type 0) : Type 0 where
  pub intn : ℕ → G → ℕ × G
  pub uint64 : G → ℕ × G
  pub float_text : ℕ → G → Bytes × G
  pub format_unix : Bytes → ℤ → Bytes

-- A number behind `min`, and the distance of two numbers that are in order.
abbrev pub ahead : ℤ → ℕ → ℤ
ahead (pos m) n = pos (m + n)
ahead (negsuc m) n = if leb n m then negsuc (m - n) else pos (n - suc m)

abbrev pub distance : ℤ → ℤ → ℕ
distance (pos a) (pos b) = b - a
distance (pos a) (negsuc b) = 0
distance (negsuc a) (pos b) = b + suc a
distance (negsuc a) (negsuc b) = a - b

abbrev alphabet : Bytes
alphabet = codes "abcdefghijklmnopqrstuvwxyzABCDEFGHIJKLMNOPQRSTUVWXYZ"

-- `time.Date(1970, 1, 0, …)` and `time.Date(2070, 1, 0, …)`: the last days of the years before.
abbrev min_unix : ℤ
min_unix = negsuc 86_399

abbrev max_unix : ℤ
max_unix = pos 3_155_673_600

-- Whether the name is one of the list, a `case` of a `switch`.
case_of : List Bytes → Bytes → Bool
case_of [] name = false
case_of (n ∷ ns) name = bytes_eq n name || case_of ns name

abbrev page_of : List ColumnInfo → Option Bytes → List Row → ResultPage
page_of cs next rows = record {
  columns = some (some cs);
  rows = rows;
  update_count = none;
  next_token = next;
}

unfoldable pub gen_header_row : List ColumnInfo → Outcome Row
gen_header_row cs = new_row (length cs) (map (λ (c : ColumnInfo). c.name) cs)

-- The type, which is dereferenced, is of no effect.
unfoldable pub missing_data_row : List ColumnInfo → Outcome Row
missing_data_row [] = returned []
missing_data_row (c ∷ cs) = do
  t ← or_panic c.column_type
  row ← missing_data_row cs
  returned (none ∷ row)

unfoldable pub gen_row : List (Option Bytes) → Row
gen_row [] = []
gen_row (d ∷ ds) = d ∷ gen_row ds

-- `columnTypes[i]` for each name; a name without a type panics.
unfoldable pub make_columns : List Bytes → List Bytes → Outcome (List ColumnInfo)
unfolding new_column_info
make_columns [] types = returned []
make_columns (n ∷ ns) [] = panics
make_columns (n ∷ ns) (t ∷ ts) =
    make_columns ns ts >>= λ cs. returned (new_column_info n (some t) ∷ cs)

unfoldable pub new_header_result_page :
    List Bytes → List Bytes → List (List (Option Bytes)) → Outcome ResultPage
unfolding make_columns gen_header_row gen_row
new_header_result_page names types rows_data = do
  cs ← make_columns names types
  header ← gen_header_row cs
  returned (page_of cs none (header ∷ map gen_row rows_data))

module _ {G : Type 0} (random : Random G) where
  -- A byte of the alphabet; an index past it panics.
  abbrev letter : Option ℕ → Outcome Bytes → Outcome Bytes
  letter none rest = panics
  letter (some c) rest = rest >>= λ s. returned (c ∷ s)

  unfoldable pub rand_string : ℕ → G → Outcome Bytes × G
  rand_string zero g = (returned [], g)
  rand_string (suc l) g =
      let (i, g') = random.intn 52 g in
      let (rest, g'') = rand_string l g' in (letter (get_elem? alphabet i) rest, g'')

  abbrev pub random_int64 : ℤ → ℤ → G → ℤ × G
  random_int64 min max g = let (n, g') = random.intn (distance min max) g in (ahead min n, g')

  abbrev int_text : ℤ → ℤ → G → Outcome Bytes × G
  int_text min max g = let (z, g') = random_int64 min max g in (returned (format_int z), g')

  unfoldable pub rand_int8 : G → Outcome Bytes × G
  rand_int8 g = int_text (negsuc 127) (pos 127) g

  unfoldable pub rand_int16 : G → Outcome Bytes × G
  rand_int16 g = int_text (negsuc 32_767) (pos 32_767) g

  unfoldable pub rand_int : G → Outcome Bytes × G
  rand_int g = int_text (negsuc 2_147_483_647) (pos 2_147_483_647) g

  unfoldable pub rand_uint64 : G → Outcome Bytes × G
  rand_uint64 g = let (n, g') = random.uint64 g in (returned (format_uint n), g')

  abbrev rand_float : ℕ → G → Outcome Bytes × G
  rand_float width g = let (s, g') = random.float_text width g in (returned s, g')

  unfoldable pub rand_str : G → Outcome Bytes × G
  unfolding rand_string
  rand_str g = let (l, g') = random.intn 10 g in rand_string l g'

  unfoldable pub rand_bool : G → Outcome Bytes × G
  rand_bool g =
      let (n, g') = random.intn 10 g in
      (returned (if n % 2 == 0 then codes "true" else codes "false"), g')

  abbrev rand_time : Bytes → G → Outcome Bytes × G
  rand_time layout g =
      let (sec, g') = random_int64 min_unix max_unix g in
      (returned (random.format_unix layout sec), g')

  -- `DateUniXFormat` and `TimestampUniXFormat`
  unfoldable pub rand_date : G → Outcome Bytes × G
  rand_date g = rand_time (codes "2006-01-02") g

  unfoldable pub rand_time_stamp : G → Outcome Bytes × G
  rand_time_stamp g = rand_time (codes "2006-01-02 15:04:05.000") g

  -- The `switch` of `randRow`; all other types have a text.
  unfoldable pub rand_text : Bytes → G → Outcome Bytes × G
  unfolding rand_int8 rand_int16 rand_int rand_uint64 rand_str rand_bool rand_date rand_time_stamp
      case_of
  rand_text t g =
      if bytes_eq t (codes "tinyint")
      then rand_int8 g
      else if bytes_eq t (codes "smallint")
      then rand_int16 g
      else if bytes_eq t (codes "integer")
      then rand_int g
      else if bytes_eq t (codes "bigint")
      then rand_uint64 g
      else if case_of (codes "float" ∷ codes "real" ∷ []) t
      then rand_float 32 g
      else if bytes_eq t (codes "double")
      then rand_float 64 g
      else if bytes_eq t (codes "boolean")
      then rand_bool g
      else if bytes_eq t (codes "date")
      then rand_date g
      else if case_of
          (codes "time"
            ∷ codes "time with time zone"
            ∷ codes "timestamp with time zone"
            ∷ codes "timestamp"
            ∷ [])
          t
      then rand_time_stamp g
      else rand_str g

  -- A column without a type has a text of two parts.
  abbrev rand_datum : Option Bytes → G → Outcome Bytes × G
  rand_datum none g = (returned (codes "a\tb"), g)
  rand_datum (some t) g = rand_text t g

  unfoldable pub rand_row : List ColumnInfo → G → Outcome Row × G
  unfolding rand_text
  rand_row [] g = (returned [], g)
  rand_row (c ∷ cs) g =
      let (d, g') = rand_datum c.column_type g in
      let (rest, g'') = rand_row cs g' in
      ((d >>= λ v. rest >>= λ row. returned (some v ∷ row)), g'')

  unfoldable pub rand_rows : List ColumnInfo → ℕ → G → Outcome (List Row) × G
  unfolding rand_row
  rand_rows cs zero g = (returned [], g)
  rand_rows cs (suc n) g =
      let (row, g') = rand_row cs g in
      let (rest, g'') = rand_rows cs n g' in
      ((row >>= λ r. rest >>= λ rows. returned (r ∷ rows)), g'')

  -- `newRandomHeaderlessResultPage`
  unfoldable pub new_random_headerless_result_page :
      List ColumnInfo → Option Bytes → ℕ → G → Outcome ResultPage × G
  unfolding rand_rows
  new_random_headerless_result_page cs next row_len g =
      let (rows, g') = rand_rows cs row_len g in
      ((rows >>= λ rs. returned (page_of cs next rs)), g')

  -- `newRandomHeaderResultPage`, whose header is one of the `row_len` rows: none is a panic.
  unfoldable pub new_random_header_result_page :
      List ColumnInfo → Option Bytes → ℕ → G → Outcome ResultPage × G
  unfolding rand_rows gen_header_row
  new_random_header_result_page cs next zero g = (panics, g)
  new_random_header_result_page cs next (suc n) g =
      let (rows, g') = rand_rows cs n g in
      ((gen_header_row cs >>= λ h. rows >>= λ rs. returned (page_of cs next (h ∷ rs))), g')
