-- ===== src/Rows/Convert/Row.antt =====
-- `convertRow` of go/rows.go, the loop of `convertRecord` over data in place of texts.
use athenadriver.Base.{List, [], ◌∷◌}
use athenadriver.Config.{Config}
use athenadriver.Errors.{Outcome, returned, panics, ◌>>=◌}
use athenadriver.Rows.Convert.{GoValue, Library, athena_type_to_go_type}
use athenadriver.Rows.Page.{ColumnInfo, Row}

module _ (library : Library) where
  -- The values of the row at the front of `ret`, whose other places are kept.
  unfoldable pub convert_row :
      List ColumnInfo → Row → List GoValue → Config → Outcome (List GoValue)
  convert_row columns [] ret config = returned ret
  convert_row [] (d ∷ ds) ret config = panics
  convert_row (c ∷ cs) (d ∷ ds) [] config =
      athena_type_to_go_type library c d config >>= λ a. panics
  convert_row (c ∷ cs) (d ∷ ds) (r ∷ ret) config =
      athena_type_to_go_type library c d config >>= λ a.
      convert_row cs ds ret config >>= λ rest. returned (a ∷ rest)
