-- ===== src/Mock/Header.antt =====
-- The pages of go/utils.go that start with a header, read by `fetchNextPage` of go/rows.go.
use athenadriver.Base.{inl, inr, suc, List, [], ◌∷◌, map, none, some, Bytes, length, ◌≡◌, refl, ap}
use athenadriver.Errors.{returned}
use athenadriver.Mock.{gen_row, gen_header_row, make_columns, new_header_result_page}
use athenadriver.Rows.Page.Header.{behind_header, names_of, first_page-is_header}
use athenadriver.Rows.Page.{ColumnInfo, Row, ResultPage, first_page, new_row}

gen_header_row-names : (cs : List ColumnInfo) → gen_header_row cs ≡ returned (names_of cs)
unfolding gen_header_row new_row
gen_header_row-names [] = refl
gen_header_row-names (c ∷ cs) = rw (gen_header_row-names cs)

length-names : (cs : List ColumnInfo) → length (names_of cs) ≡ length cs
length-names [] = refl
length-names (c ∷ cs) = ap suc (length-names cs)

gen_row-eq : (row : Row) → gen_row row ≡ row
unfolding gen_row
gen_row-eq [] = refl
gen_row-eq (d ∷ ds) = rw (gen_row-eq ds)

gen_rows-eq : (rows : List Row) → map gen_row rows ≡ rows
gen_rows-eq [] = refl
gen_rows-eq (r ∷ rs) = rw (gen_row-eq r, gen_rows-eq rs)

header_dropped :
    (page : ResultPage) (c : ColumnInfo) (cs : List ColumnInfo) (rows : List Row)
    → page.columns ≡ some (some (c ∷ cs))
    → page.rows ≡ names_of (c ∷ cs) ∷ rows
    → first_page page ≡ returned (behind_header page rows)
header_dropped page c cs rows e r =
    elim (first_page-is_header page c cs (names_of (c ∷ cs)) rows e r (length-names (c ∷ cs))) [
      | inl (same, h) ↦ h
      | inr (other, h) ↦ absurd (other refl)
    ]

-- A page that is made with a header is read back, by the first fetch of the rows, as the rows that
-- it was made of. If there are none, the header stays as the one row, and the last page is reached.
-- There must be a column, and a type for each name.
first_page-new_header_result_page :
    (names types : List Bytes) (rows : List Row) (c : ColumnInfo) (cs : List ColumnInfo)
    → make_columns names types ≡ returned (c ∷ cs)
    → (page : ResultPage) × (new_header_result_page names types rows ≡ returned page)
      × (first_page page ≡ returned (behind_header page rows))
unfolding new_header_result_page
first_page-new_header_result_page names types rows c cs h =
    let page : ResultPage = record {
      columns = some (some (c ∷ cs));
      rows = names_of (c ∷ cs) ∷ rows;
      update_count = none;
      next_token = none;
    } in
    (
      page,
      rw (h, gen_header_row-names (c ∷ cs), gen_rows-eq rows),
      header_dropped page c cs rows refl refl,
    )
