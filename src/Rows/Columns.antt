-- ===== src/Rows/Columns.antt =====
-- `Columns` and `ColumnTypeDatabaseTypeName` of go/rows.go, over the columns of the first page,
-- whose metadata may be nil. A count and a log of a missing type are left out.
use athenadriver.Base.{ℕ, List, [], Option, none, some, map, Bytes, get_elem?}
use athenadriver.Errors.{Outcome, returned, panics}
use athenadriver.Rows.Page.{ColumnInfo, ResultPage}

abbrev names : Option (Option (List ColumnInfo)) → Outcome (List Bytes)
names none = panics
names (some none) = returned []
names (some (some cs)) = returned (map (λ (c : ColumnInfo). c.name) cs)

unfoldable pub get_columns : ResultPage → Outcome (List Bytes)
get_columns p = names p.columns

abbrev or_empty : Option Bytes → Bytes
or_empty none = []
or_empty (some t) = t

abbrev type_name : Option ColumnInfo → Outcome Bytes
type_name none = panics
type_name (some c) = returned (or_empty c.column_type)

abbrev type_at : Option (Option (List ColumnInfo)) → ℕ → Outcome Bytes
type_at none index = panics
type_at (some none) index = panics
type_at (some (some cs)) index = type_name (get_elem? cs index)

unfoldable pub column_type_database_type_name : ResultPage → ℕ → Outcome Bytes
column_type_database_type_name p index = type_at p.columns index
