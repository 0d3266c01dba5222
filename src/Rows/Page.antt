-- ===== src/Rows/Page.antt =====
-- `NewRows`, `fetchQueryExecution` and `fetchNextPage` of go/rows.go, and the page makers
-- `newColumnInfo`, `newRow` and `newHeaderlessResultPage` of go/utils.go. The calls of the Athena
-- client are parameters. A column's name, which the service always sends, is never nil.
pub mod Header
use athenadriver.Base.{
  ℕ, zero, suc, ◌+◌, ◌-◌, Bool, true, false, not, ◌&&◌, List, [], ◌∷◌, ◌++◌, map, Option, none,
  some, ltb, ◌==◌, if◌then◌else◌, Bytes, codes, bytes_eq, length, drop,
}
use athenadriver.Decimal.{ℤ, pos, negsuc, format_uint, format_int}
use athenadriver.Errors.{Outcome, returned, panics, ◌>>=◌}
use athenadriver.Strings.{split, trim_space}

pub record ColumnInfo : Type 0 where
  pub name : Bytes
  pub column_type : Option Bytes

-- A datum is its `VarCharValue`, which may be nil.
abbrev pub Datum : Type 0
Datum = Option Bytes

abbrev pub Row : Type 0
Row = List Datum

-- `athena.GetQueryResultsOutput` with its `ResultSet`. The metadata may be nil, and so may its
-- list of columns.
pub record ResultPage : Type 0 where
  pub columns : Option (Option (List ColumnInfo))
  pub rows : List Row
  pub update_count : Option ℤ
  pub next_token : Option Bytes

unfoldable pub new_column_info : Bytes → Option Bytes → ColumnInfo
new_column_info name ty = record { name = name; column_type = ty }

-- `rData[i]` for each `i` below the length.
unfoldable pub new_row : ℕ → List Bytes → Outcome Row
new_row zero data' = returned []
new_row (suc n) [] = panics
new_row (suc n) (d ∷ data') = new_row n data' >>= λ r. returned (some d ∷ r)

zip_columns : List Bytes → List (Option Bytes) → List ColumnInfo
zip_columns [] types = []
zip_columns (n ∷ ns) [] = []
zip_columns (n ∷ ns) (t ∷ ts) = new_column_info n t ∷ zip_columns ns ts

unfoldable pub new_headerless_result_page : List Bytes → List (Option Bytes) → List Row → ResultPage
unfolding new_column_info zip_columns
new_headerless_result_page names types rows = record {
  columns = some (some (zip_columns names types));
  rows = rows;
  update_count = none;
  next_token = none;
}

-- The columns `_col` + number that are added for data with no column; `n` is the next number.
unfoldable pub more_columns : ℕ → ℕ → List ColumnInfo
unfolding new_column_info
more_columns zero n = []
more_columns (suc k) n =
    new_column_info (codes "_col" ++ format_uint n) (some (codes "string")) ∷ more_columns k (n + 1)

-- `*row.Data[0].VarCharValue`
abbrev pub first_text : Row → Outcome Bytes
first_text [] = panics
first_text (none ∷ ds) = panics
first_text (some v ∷ ds) = returned v

-- A row of one datum is cut at its tabs, if that gives a part for each column.
unfoldable pub split_row : ℕ → Row → Outcome Row
unfolding new_row
split_row col_len row = do
  v ← first_text row
  let items = split v b'\t'
  if length items == col_len then new_row col_len (map trim_space items) else returned row

unfoldable pub split_rows : ℕ → List Row → Outcome (List Row)
unfolding split_row
split_rows col_len [] = returned []
split_rows col_len (r ∷ rs) = do
  r' ← split_row col_len r
  rs' ← split_rows col_len rs
  returned (r' ∷ rs')

-- The repair of columns and rows when there is a first row.
unfoldable pub repair : List ColumnInfo → Row → List Row → ResultPage → Outcome ResultPage
unfolding more_columns split_rows
repair cs row rows p =
    if ltb (length cs) (length row)
    then returned (record p {
      columns = some (some (cs ++ more_columns (length row - length cs) (length cs)));
    })
    else if ltb (length row) (length cs) && length row == 1
    then (split_rows (length cs) rows >>= λ rows'. returned (record p { rows = rows' }))
    else returned p

abbrev is_positive : ℤ → Bool
is_positive (pos n) = not (n == 0)
is_positive (negsuc n) = false

abbrev count_row : List ColumnInfo → ℤ → ResultPage → ResultPage
count_row (c ∷ []) n p =
    if is_positive n && bytes_eq c.name (codes "rows")
    then record p { rows = p.rows ++ (some (format_int n) ∷ []) ∷ [] }
    else p
count_row cs n p = p

abbrev add_count : List ColumnInfo → Option ℤ → ResultPage → ResultPage
add_count cs none p = p
add_count cs (some n) p = count_row cs n p

abbrev adjust_rows : List ColumnInfo → List Row → ResultPage → Outcome ResultPage
adjust_rows cs [] p = returned (add_count cs p.update_count p)
adjust_rows cs (row ∷ rows) p = repair cs row (row ∷ rows) p

abbrev adjust : Option (Option (List ColumnInfo)) → ResultPage → Outcome ResultPage
adjust (some (some cs)) p = adjust_rows cs p.rows p
adjust _ p = returned p

-- The loop that compares the first row with the names of the columns, of equal number.
unfoldable pub is_header : List ColumnInfo → Row → Bool
is_header [] [] = true
is_header (c ∷ cs) (some v ∷ row) = bytes_eq c.name v && is_header cs row
is_header _ _ = false

abbrev has_offset : List ColumnInfo → List Row → Bool
has_offset [] rows = false
has_offset cs [] = false
has_offset cs (row ∷ rows) = is_header cs row

-- `rowOffset` on the first page; nil metadata is dereferenced, and a nil list of columns is empty.
abbrev row_offset : Option (Option (List ColumnInfo)) → List Row → Outcome ℕ
row_offset none rows = panics
row_offset (some none) rows = returned 0
row_offset (some (some cs)) rows = returned (if has_offset cs rows then 1 else 0)

-- Drops the header, or marks the last page when no row is left behind it.
abbrev cut : ℕ → ResultPage → ResultPage × Bool
cut offset p =
    if ltb offset (length p.rows)
    then (record p { rows = drop offset p.rows }, false)
    else (p, true)

-- `fetchNextPage` behind the call of `GetQueryResults`, on the first page: the page, and
-- `reachedLastPage`.
unfoldable pub first_page : ResultPage → Outcome (ResultPage × Bool)
unfolding repair is_header
first_page output = do
  p ← adjust output.columns output
  offset ← row_offset p.columns p.rows
  returned (cut offset p)

pub record Rows : Type 0 where
  pub query_id : Bytes
  pub reached_last_page : Bool
  pub output_location : Bytes
  pub result_output : ResultPage

-- `NewRows`, over the answers of the client: the output location of the execution, and the page.
unfoldable pub new_rows :
    (Bytes → Outcome Bytes) → (Bytes → Outcome ResultPage) → Bytes → Outcome Rows
unfolding first_page
new_rows get_query_execution get_query_results query_id = do
  location ← get_query_execution query_id
  output ← get_query_results query_id
  page ← first_page output
  returned (record {
    query_id = query_id;
    reached_last_page = page.1;
    output_location = location;
    result_output = page.0;
  })
