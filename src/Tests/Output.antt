-- ===== src/Tests/Output.antt =====
-- The theorems on the CSV texts, the mock pages and the logs at concrete inputs.
use athenadriver.Base.{
  ℕ, true, false, List, [], ◌∷◌, none, some, if◌then◌else◌, Bytes, codes, ◌≡◌, ◌≢◌, inl, inr, refl,
  length, ltb, ◌+◌,
}
use athenadriver.Config.Flags.{set_logging, check_column_masked}
use athenadriver.Config.{new_no_ops_config}
use athenadriver.Csv.Reader.{fresh, read_csv}
use athenadriver.Csv.RoundTrip.{
  HasFields, HasPlainNames, read_csv-rows_to_csv, read_csv-cols_rows_to_csv,
}
use athenadriver.Csv.{SqlRows, any_special, rows_to_csv, cols_rows_to_csv}
use athenadriver.Errors.{returned}
use athenadriver.Mock.Convert.{
  IsRandom, IsReadable, HasReadableTypes, HasPlaces, rand_row-convert_row,
}
use athenadriver.Mock.{Random, make_columns, rand_row}
use athenadriver.Rows.Convert.Row.{convert_row}
use athenadriver.Rows.Convert.{GoValue, nil, Library}
use athenadriver.Rows.Page.{ColumnInfo, Row, new_column_info}
use athenadriver.Trace.Laws.{AllMild, severity, log-set_logging}
use athenadriver.Url
use athenadriver.Trace.{DriverTracer, logger_of, noop_scope, panic, log}

abbrev sql_rows : SqlRows
sql_rows = record {
  columns = codes "id" ∷ codes "name" ∷ [];
  cells = (codes "1" ∷ codes "a, \"b\"" ∷ []) ∷ (codes "2" ∷ [] ∷ []) ∷ [];
}

sql_rows-HasFields : HasFields sql_rows.cells
unfolding HasFields
sql_rows-HasFields = (cc, (cc, tt))

sql_rows-HasPlainNames : HasPlainNames sql_rows.columns
unfolding HasPlainNames any_special
sql_rows-HasPlainNames = (refl, (refl, tt))

sql_rows-HasColumns : sql_rows.columns ≢ []
sql_rows-HasColumns = cc

read_csv-rows_to_csv_example : read_csv fresh (rows_to_csv (some sql_rows)).1 ≡ some sql_rows.cells
read_csv-rows_to_csv_example = read_csv-rows_to_csv sql_rows sql_rows-HasFields

read_csv-cols_rows_to_csv_example :
    (read_csv fresh (cols_rows_to_csv (some sql_rows)).1 ≡ some (sql_rows.columns ∷ sql_rows.cells))
    × ((rows_to_csv (cols_rows_to_csv (some sql_rows)).0).1 ≡ [])
read_csv-cols_rows_to_csv_example =
    read_csv-cols_rows_to_csv sql_rows sql_rows-HasColumns sql_rows-HasFields sql_rows-HasPlainNames

-- A source that counts, as far as the bounds let it.
abbrev random : Random ℕ
random = record {
  intn = λ n g. (0, g + 1);
  uint64 = λ g. (g, g + 1);
  float_text = λ w g. (codes "0.5", g + 1);
  format_unix = λ layout sec. codes "2020-01-01";
}

random-IsRandom : IsRandom random
random-IsRandom = record { intn_lt = λ n g h. h }

abbrev no_library : Library
no_library = record {
  parse_float32 = λ _. none;
  parse_float64 = λ _. none;
  load_location = λ _. none;
  parse_in_location = λ _ _ _. none;
}

abbrev columns : List ColumnInfo
columns =
    record { name = codes "id"; column_type = some (codes "smallint") }
    ∷ record { name = codes "done"; column_type = some (codes "boolean") }
    ∷ []

columns-HasReadableTypes : HasReadableTypes columns
unfolding HasReadableTypes IsReadable
columns-HasReadableTypes =
    ((codes "smallint", refl, inr (inl refl)), ((codes "boolean", refl, inr (inr (inr refl))), tt))

columns-HasPlaces : HasPlaces new_no_ops_config columns (nil ∷ nil ∷ [])
unfolding HasPlaces check_column_masked new_no_ops_config Url.lookup Url.put
columns-HasPlaces = (refl, (refl, tt))

rand_row-convert_row_example :
    (row : Row) × (vs : List GoValue) × ((rand_row random columns 7).0 ≡ returned row)
    × (convert_row no_library columns row (nil ∷ nil ∷ []) new_no_ops_config ≡ returned vs)
rand_row-convert_row_example =
    rand_row-convert_row random no_library random-IsRandom new_no_ops_config columns
      (nil ∷ nil ∷ []) 7 columns-HasReadableTypes columns-HasPlaces

abbrev names : List Bytes
names = codes "id" ∷ codes "done" ∷ []

abbrev types : List Bytes
types = codes "smallint" ∷ codes "boolean" ∷ []

abbrev rows : List Row
rows = (some (codes "1") ∷ none ∷ []) ∷ []

made_columns : make_columns names types ≡ returned columns
unfolding make_columns new_column_info
made_columns = refl

abbrev tracer : DriverTracer
tracer = record { logger = logger_of 1; scope = noop_scope; config = new_no_ops_config }

log-set_logging_example :
    (log (record tracer { config = set_logging new_no_ops_config false }) panic (codes "m") ≡ [])
    × (length
          (log (record tracer { config = set_logging new_no_ops_config true }) panic (codes "m"))
        ≡ (if ltb (severity panic) 7 then 1 else 0))
    × AllMild tracer panic
        (log (record tracer { config = set_logging new_no_ops_config true }) panic (codes "m"))
log-set_logging_example = log-set_logging tracer panic (codes "m")
