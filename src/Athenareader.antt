-- ===== src/Athenareader.antt =====
-- The program athenareader: its connection, lib/queryfx/module.go, and its loop over the queries,
-- `queryAthena` of athenareader/main.go.
pub mod Dsn
pub mod Loop
use athenadriver.Base.{
  ℕ, Bool, true, false, not, ◌&&◌, ◌||◌, ◌==◌, List, [], ◌∷◌, ◌++◌, Option, none, some,
  if◌then◌else◌, Bytes, codes, ◌⊎◌, inl, inr,
}
use athenadriver.Config.Flags.{set_money_wise, set_read_only}
use athenadriver.Config.Text.{UrlAddress, stringify}
use athenadriver.Config.{Config, is_empty, set_db, set_output_bucket, new_default_config}
use athenadriver.Csv.{SqlRows}
use athenadriver.Decimal.{ℤ}
use athenadriver.Errors.{Error, Outcome, returned, failed, panics, unfinished}
use athenadriver.Strings.{trim_by}
use athenadriver.Table.{Table, pretty_print_sql_rows, pretty_print_sql_cols_rows}
use athenadriver.Configfx.{ReaderOutputConfig, AthenaDriverConfig}

-- `new` of lib/queryfx, as the DSN that it opens, and the queries.
unfoldable pub new_query : UrlAddress → AthenaDriverConfig → Bytes × List Bytes
new_query codec mc = ((stringify codec mc.drv_config).1, mc.query_string)

-- What `queryAthena` prints: a table, or the text of an error.
pub data Printed : Type 0 where
  table_of : Option Table → Printed
  error_of : Error → Printed

abbrev pub is_trimmed : ℕ → Bool
is_trimmed c = c == b' ' || c == b'\n' || c == b'\t'

-- `query` is the parameter for `(*sql.DB).Query`, over the state of the database.
module _ {S : Type 0} (query : Bytes → S → (Error ⊎ SqlRows) × S) where
  abbrev pub print_rows : ReaderOutputConfig → SqlRows → Printed
  print_rows o rows = table_of (
      if o.rowonly
      then (pretty_print_sql_rows (some rows) o.style o.render o.page).1
      else (pretty_print_sql_cols_rows (some rows) o.style o.render o.page).1)

  abbrev prepend : Printed → List Printed × S → List Printed × S
  prepend p (ps, s) = (p ∷ ps, s)

  abbrev after_query :
      ReaderOutputConfig → (Error ⊎ SqlRows) × S → (S → List Printed × S) → List Printed × S
  after_query o (inl e, s) rest =
      if o.fastfail then (error_of e ∷ [], s) else prepend (error_of e) (rest s)
  after_query o (inr rows, s) rest = prepend (print_rows o rows) (rest s)

  abbrev one_query : ReaderOutputConfig → Bytes → S → (S → List Printed × S) → List Printed × S
  one_query o [] s rest = rest s
  one_query o (c ∷ q) s rest = after_query o (query (c ∷ q) s) rest

  -- `queryAthena`
  unfoldable pub query_athena : ReaderOutputConfig → List Bytes → S → List Printed × S
  query_athena o [] s = ([], s)
  query_athena o (q ∷ qs) s = one_query o (trim_by is_trimmed q) s (query_athena o qs)
