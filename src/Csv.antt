-- ===== src/Csv.antt =====
-- `ColsToCSV`, `RowsToCSV` and `ColsRowsToCSV` of go/utils.go, with the writer of Go's package
-- encoding/csv that they use. `Reader` is the format that the text is meant to have.
-- `SqlRows` is what the package database/sql gives: the names of the columns, and, for each row
-- that is still to come, the cells as `Scan` leaves them, one for each column.
pub mod Reader
pub mod RoundTrip
use athenadriver.Base.{
  ℕ, Bool, true, false, ◌||◌, List, [], ◌∷◌, ◌++◌, Option, none, some, ◌==◌, if◌then◌else◌, Bytes,
  codes, bytes_eq,
}
use athenadriver.Strings.{is_space}

abbrev pub Record : Type 0
Record = List Bytes

pub record SqlRows : Type 0 where
  pub columns : List Bytes
  pub cells : List Record

-- The bytes that a field of the format cannot hold as it is.
abbrev pub is_special : ℕ → Bool
is_special c = c == b',' || c == b'"' || c == b'\r' || c == b'\n'

unfoldable pub any_special : Bytes → Bool
any_special [] = false
any_special (c ∷ s) = is_special c || any_special s

abbrev starts_with_space : Bytes → Bool
starts_with_space [] = false
starts_with_space (c ∷ s) = is_space c

-- `fieldNeedsQuotes` of encoding/csv
unfoldable pub field_needs_quotes : Bytes → Bool
unfolding any_special
field_needs_quotes s = bytes_eq s (codes "\\.") || any_special s || starts_with_space s

-- Quotes are doubled.
unfoldable pub quote_body : Bytes → Bytes
quote_body [] = []
quote_body (c ∷ s) = let rest = quote_body s in if c == b'"' then b'"' ∷ b'"' ∷ rest else c ∷ rest

unfoldable pub write_field : Bytes → Bytes
unfolding field_needs_quotes quote_body
write_field s = if field_needs_quotes s then b'"' ∷ (quote_body s ++ b'"' ∷ []) else s

-- The fields with commas between them, each as `f` writes it, and the end of the line.
abbrev pub write_line : (Bytes → Bytes) → Record → Bytes
write_line f [] = b'\n' ∷ []
write_line f (s ∷ []) = f s ++ b'\n' ∷ []
write_line f (s ∷ t ∷ ss) = f s ++ b',' ∷ write_line f (t ∷ ss)

-- `(*csv.Writer).WriteAll`
unfoldable pub write_all : List Record → Bytes
unfolding write_field
write_all [] = []
write_all (r ∷ rs) = write_line write_field r ++ write_all rs

-- The columns are written as they are.
abbrev names_line : List Bytes → Bytes
names_line [] = []
names_line (n ∷ ns) = write_line (λ s. s) (n ∷ ns)

unfoldable pub cols_to_csv : Option SqlRows → Bytes
cols_to_csv none = []
cols_to_csv (some rows) = names_line rows.columns

-- The text, and the rows behind their last `Next`.
unfoldable pub rows_to_csv : Option SqlRows → Option SqlRows × Bytes
unfolding write_all
rows_to_csv none = (none, [])
rows_to_csv (some rows) = (some (record rows { cells = [] }), write_all rows.cells)

unfoldable pub cols_rows_to_csv : Option SqlRows → Option SqlRows × Bytes
unfolding cols_to_csv rows_to_csv
cols_rows_to_csv rows =
    let s = cols_to_csv rows in let (rows', r) = rows_to_csv rows in (rows', s ++ r)
