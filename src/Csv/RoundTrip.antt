-- ===== src/Csv/RoundTrip.antt =====
-- The texts that `RowsToCSV` and `ColsRowsToCSV` of go/utils.go write, read back.
use athenadriver.Base.{
  false, List, [], ◌∷◌, ◌++◌, some, Bytes, ◌≡◌, ◌≢◌, ◌⊎◌, inl, inr, refl, arith, Bool-cases,
}
use athenadriver.Csv.Reader.{Place, fresh, start, plain, quoted, closed, step, act, read_csv}
use athenadriver.Csv.{
  Record, SqlRows, names_line, any_special, field_needs_quotes, quote_body, write_field, write_line,
  write_all, rows_to_csv, cols_to_csv, cols_rows_to_csv,
}
use mathlib.Core.List.{append_assoc}

-- A field ends where it stands.
abbrev Ends : Record → List Record → Bytes → Type 0
Ends ss rs rest = (p : Place) → p ≢ quoted → read_csv p rest ≡ some (([] ∷ ss) ∷ rs)

comma-Ends :
    (rest : Bytes) (ss : Record) (rs : List Record)
    → read_csv start rest ≡ some (ss ∷ rs)
    → Ends ss rs (b',' ∷ rest)
unfolding read_csv step act
comma-Ends rest ss rs h fresh n = rw h
comma-Ends rest ss rs h start n = rw h
comma-Ends rest ss rs h plain n = rw h
comma-Ends rest ss rs h quoted n = absurd (n refl)
comma-Ends rest ss rs h closed n = rw h

line-Ends :
    (rest : Bytes) (rs : List Record) → read_csv fresh rest ≡ some rs → Ends [] rs (b'\n' ∷ rest)
unfolding read_csv step act
line-Ends rest rs h fresh n = rw h
line-Ends rest rs h start n = rw h
line-Ends rest rs h plain n = rw h
line-Ends rest rs h quoted n = absurd (n refl)
line-Ends rest rs h closed n = rw h

module _ (rest : Bytes) (ss : Record) (rs : List Record) (ends : Ends ss rs rest) where
  read_csv-quoted :
      (s : Bytes) → read_csv quoted (quote_body s ++ b'"' ∷ rest) ≡ some ((s ∷ ss) ∷ rs)
  unfolding read_csv step act quote_body
  read_csv-quoted [] = rw (ends closed cc)
  read_csv-quoted (c ∷ s) = ground (arith, read_csv-quoted s)

  read_csv-plain :
      (s : Bytes) → any_special s ≡ false → read_csv plain (s ++ rest) ≡ some ((s ∷ ss) ∷ rs)
  unfolding read_csv step act any_special
  read_csv-plain [] h = ends plain cc
  read_csv-plain (c ∷ s) h = ground (arith, read_csv-plain s)

  -- A field that is written without quotes, and is not empty, starts with a plain byte.
  read_csv-bare :
      (p : Place) (s : Bytes)
      → (p ≡ fresh) ⊎ (p ≡ start)
      → any_special s ≡ false
      → read_csv p (s ++ rest) ≡ some ((s ∷ ss) ∷ rs)
  unfolding read_csv step act any_special
  read_csv-bare p [] (inl e) h = ends p (rw e cc)
  read_csv-bare p [] (inr e) h = ends p (rw e cc)
  read_csv-bare p (c ∷ s) (inl e) h = rw e (ground (arith, read_csv-plain s))
  read_csv-bare p (c ∷ s) (inr e) h = rw e (ground (arith, read_csv-plain s))

  read_csv-quotes :
      (p : Place) (s : Bytes)
      → (p ≡ fresh) ⊎ (p ≡ start)
      → read_csv p (b'"' ∷ (quote_body s ++ b'"' ∷ rest)) ≡ some ((s ∷ ss) ∷ rs)
  unfolding read_csv step act
  read_csv-quotes p s (inl e) = rw (e, read_csv-quoted s)
  read_csv-quotes p s (inr e) = rw (e, read_csv-quoted s)

  read_csv-write_field :
      (p : Place) (s : Bytes)
      → (p ≡ fresh) ⊎ (p ≡ start)
      → read_csv p (write_field s ++ rest) ≡ some ((s ∷ ss) ∷ rs)
  unfolding write_field field_needs_quotes
  read_csv-write_field p s h = elim (Bool-cases (field_needs_quotes s)) [
    | inl e ↦ rw (e, append_assoc (quote_body s) (b'"' ∷ []) rest) (read_csv-quotes p s h)
    | inr e ↦ rw e (read_csv-bare p s h (ground arith))
  ]

-- What `f` writes for a field is read as that field.
Reads : (Bytes → Bytes) → Bytes → Type 0
Reads f s =
    (rest : Bytes) (ss : Record) (rs : List Record) (p : Place)
    → Ends ss rs rest
    → (p ≡ fresh) ⊎ (p ≡ start)
    → read_csv p (f s ++ rest) ≡ some ((s ∷ ss) ∷ rs)

AllReads : (Bytes → Bytes) → Record → Type 0
AllReads f [] = Unit {0}
AllReads f (s ∷ ss) = Reads f s × AllReads f ss

read_csv-write_line :
    (f : Bytes → Bytes) (s : Bytes) (ss : Record) (rest : Bytes) (rs : List Record) (p : Place)
    → AllReads f (s ∷ ss)
    → (p ≡ fresh) ⊎ (p ≡ start)
    → read_csv fresh rest ≡ some rs
    → read_csv p (write_line f (s ∷ ss) ++ rest) ≡ some ((s ∷ ss) ∷ rs)
unfolding AllReads Reads
read_csv-write_line f s [] rest rs p h e k =
    rw (append_assoc (f s) (b'\n' ∷ []) rest) (h.0 (b'\n' ∷ rest) [] rs p (line-Ends rest rs k) e)
read_csv-write_line f s (t ∷ ss) rest rs p h e k =
    rw (append_assoc (f s) (b',' ∷ write_line f (t ∷ ss)) rest) (
      h.0 (b',' ∷ (write_line f (t ∷ ss) ++ rest)) (t ∷ ss) rs p
        (comma-Ends _ (t ∷ ss) rs (read_csv-write_line f t ss rest rs start h.1 (inr refl) k)) e)

write_field-AllReads : (ss : Record) → AllReads write_field ss
unfolding AllReads Reads
write_field-AllReads [] = tt
write_field-AllReads (s ∷ ss) =
    ((λ rest ts rs p ends e. read_csv-write_field rest ts rs ends p s e), write_field-AllReads ss)

-- Each record has a field.
unfoldable pub HasFields : List Record → Type 0
HasFields [] = Unit {0}
HasFields (r ∷ rs) = (r ≢ []) × HasFields rs

read_csv-write_all : (rs : List Record) → HasFields rs → read_csv fresh (write_all rs) ≡ some rs
unfolding read_csv write_all HasFields
read_csv-write_all [] h = refl
read_csv-write_all ([] ∷ rs) h = absurd (h.0 refl)
read_csv-write_all ((s ∷ ss) ∷ rs) h =
    read_csv-write_line write_field s ss (write_all rs) rs fresh (write_field-AllReads (s ∷ ss))
      (inl refl) (read_csv-write_all rs h.1)

-- No name holds a comma, a quote, a carriage return or a line feed.
unfoldable pub HasPlainNames : List Bytes → Type 0
HasPlainNames [] = Unit {0}
HasPlainNames (n ∷ ns) = (any_special n ≡ false) × HasPlainNames ns

plain-AllReads : (ns : List Bytes) → HasPlainNames ns → AllReads (λ s. s) ns
unfolding AllReads Reads HasPlainNames
plain-AllReads [] h = tt
plain-AllReads (n ∷ ns) h =
    ((λ rest ts rs p ends e. read_csv-bare rest ts rs ends p n e h.0), plain-AllReads ns h.1)

read_csv-names :
    (ns : List Bytes) (rest : Bytes) (rs : List Record)
    → ns ≢ []
    → HasPlainNames ns
    → read_csv fresh rest ≡ some rs
    → read_csv fresh (names_line ns ++ rest) ≡ some (ns ∷ rs)
read_csv-names [] rest rs h l k = absurd (h refl)
read_csv-names (n ∷ ns) rest rs h l k =
    read_csv-write_line (λ s. s) n ns rest rs fresh (plain-AllReads (n ∷ ns) l) (inl refl) k

-- The text that `RowsToCSV` gives for rows that have a cell each is read back as these rows,
-- whatever bytes the cells hold.
pub read_csv-rows_to_csv :
    (rows : SqlRows)
    → HasFields rows.cells
    → read_csv fresh (rows_to_csv (some rows)).1 ≡ some rows.cells
unfolding rows_to_csv
read_csv-rows_to_csv rows k = read_csv-write_all rows.cells k

-- The text that `ColsRowsToCSV` gives is read back as the names of the columns and then the rows,
-- if there is a column, each row has a cell, and no name holds a comma, a quote, a carriage return
-- or a line feed. The rows are then used up: a further `RowsToCSV` gives the empty text.
pub read_csv-cols_rows_to_csv :
    (rows : SqlRows)
    → rows.columns ≢ []
    → HasFields rows.cells
    → HasPlainNames rows.columns
    → (read_csv fresh (cols_rows_to_csv (some rows)).1 ≡ some (rows.columns ∷ rows.cells))
      × ((rows_to_csv (cols_rows_to_csv (some rows)).0).1 ≡ [])
unfolding rows_to_csv cols_rows_to_csv cols_to_csv write_all
read_csv-cols_rows_to_csv rows h k l = (
  read_csv-names rows.columns (write_all rows.cells) rows.cells h l
      (read_csv-write_all rows.cells k),
  refl,
)
