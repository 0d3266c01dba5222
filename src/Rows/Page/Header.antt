-- ===== src/Rows/Page/Header.antt =====
-- The header in `fetchNextPage` of go/rows.go.
use athenadriver.Base.{
  ℕ, suc, Bool, true, false, List, [], ◌∷◌, some, length, ◌≡◌, refl, arith, ltb, lt→ltb, Bool-cases,
  inl, inr, map, none, ◌≢◌, sym, ap, ◌∙◌, bytes_eq, bytes_eq_iff, bytes_eq_refl, ◌&&◌, ◌⊎◌,
}
use athenadriver.Errors.{returned}
use athenadriver.Rows.Page.{ColumnInfo, Row, ResultPage, is_header, first_page, repair, cut}
use mathlib.Core.Bool.{false≢true}

-- What is left of the rows behind a header, and whether the last page is reached.
abbrev pub behind_header : ResultPage → List Row → ResultPage × Bool
behind_header p [] = (p, true)
behind_header p (r ∷ rows) = (record p { rows = r ∷ rows }, false)

ltb_irrefl : (n : ℕ) → ltb n n ≡ false
ltb_irrefl n = ground arith

cut-header :
    (p : ResultPage) (row : Row) (rows : List Row)
    → returned (cut 1 (record p { rows = row ∷ rows }))
      ≡ returned (behind_header (record p { rows = row ∷ rows }) rows)
cut-header p row [] = refl
cut-header p row (r ∷ rows) = rw (lt→ltb 1 (suc (suc (length rows))) (omega arith))

-- The names of the columns, as a row.
abbrev pub names_of : List ColumnInfo → Row
names_of = map (λ c. some c.name)

is_header-names : (cs : List ColumnInfo) → is_header cs (names_of cs) ≡ true
unfolding is_header
is_header-names [] = refl
is_header-names (c ∷ cs) = rw (bytes_eq_refl c.name, is_header-names cs)

names-is_header : (cs : List ColumnInfo) (row : Row) → is_header cs row ≡ true → row ≡ names_of cs
unfolding is_header
names-is_header [] [] h = refl
names-is_header [] (v ∷ row) h = absurd (false≢true h)
names-is_header (c ∷ cs) [] h = absurd (false≢true h)
names-is_header (c ∷ cs) (none ∷ row) h = absurd (false≢true h)
names-is_header (c ∷ cs) (some v ∷ row) h = elim (Bool-cases (bytes_eq c.name v)) [
  | inl e ↦
      let same = (bytes_eq_iff c.name v).0 e in
      let rest = names-is_header cs row (sym (ap (λ b. b && is_header cs row) e) ∙ h) in cc
  | inr e ↦ absurd (false≢true (sym (ap (λ b. b && is_header cs row) e) ∙ h))
]

-- A first page whose first row holds the names of the columns, in their order, loses that row, and
-- is marked as the last page only if that row is its one row, which then stays. A first page whose
-- first row is as wide as the columns but is not the row of their names is kept as it is, and not
-- marked.
pub first_page-is_header :
    (p : ResultPage) (c : ColumnInfo) (cs : List ColumnInfo) (row : Row) (rows : List Row)
    → p.columns ≡ some (some (c ∷ cs))
    → p.rows ≡ row ∷ rows
    → length row ≡ length (c ∷ cs)
    → ((row ≡ names_of (c ∷ cs)) × (first_page p ≡ returned (behind_header p rows)))
      ⊎ ((row ≢ names_of (c ∷ cs)) × (first_page p ≡ returned (p, false)))
unfolding first_page repair
first_page-is_header p c cs row rows e r w = elim (Bool-cases (is_header (c ∷ cs) row)) [
  | inl h ↦ inl (
    names-is_header (c ∷ cs) row h,
    rw (e, r, w, ltb_irrefl (suc (length cs)), h)
        (cut-header (record p { columns = some (some (c ∷ cs)); rows = row ∷ rows }) row rows),
  )
  | inr h ↦ inr (
    λ same. false≢true (sym h ∙ ap (is_header (c ∷ cs)) same ∙ is_header-names (c ∷ cs)),
    rw (e, r, w, ltb_irrefl (suc (length cs)), h, lt→ltb 0 (suc (length rows)) (omega arith)),
  )
]
