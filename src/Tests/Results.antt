-- ===== src/Tests/Results.antt =====
-- The theorems on the results of a query at concrete inputs: pages, values and a stream.
use athenadriver.Base.{◌⊎◌, ◌≢◌, false, false, [], ◌∷◌, ◌++◌, none, some, codes, ◌≡◌, refl}
use athenadriver.Config.Flags.{check_column_masked, set_masked_column_value}
use athenadriver.Config.{new_no_ops_config}
use athenadriver.Decimal.{pos, format_int}
use athenadriver.Errors.{returned, panics}
use athenadriver.Rows.Convert
use athenadriver.Rows.Convert.{
  athena_type_to_go_type, Library, convert_value, scan_time, int8, int16, int32,
}
use athenadriver.Rows.Convert.Laws.{fitting, convert_value-format_int, scan_time_panics}
use athenadriver.Rows.Convert.Mask.{athena_type_to_go_type-set_masked_column_value}
use athenadriver.Rows.Page.Header.{behind_header, names_of, first_page-is_header}
use athenadriver.Rows.Page.{ColumnInfo, first_page, ResultPage}
use athenadriver.Tests.{early}

abbrev pub go_library : Library
go_library = record {
  parse_float32 = λ v. none;
  parse_float64 = λ v. none;
  load_location = λ name. none;
  parse_in_location = λ layout v zone. some early;
}

convert_value-format_int_example :
    (convert_value go_library (codes "tinyint") (format_int (pos 200)) ≡ fitting 7 int8 (pos 200))
    × (convert_value go_library (codes "smallint") (format_int (pos 200))
        ≡ fitting 15 int16 (pos 200))
    × (convert_value go_library (codes "integer") (format_int (pos 200))
        ≡ fitting 31 int32 (pos 200))
    × (convert_value go_library (codes "bigint") (format_int (pos 200))
        ≡ fitting 63 Convert.int64 (pos 200))
convert_value-format_int_example = convert_value-format_int go_library (pos 200)

scan_time_panics_example : scan_time go_library (codes "2020-01-01" ++ b' ' ∷ []) ≡ panics
scan_time_panics_example = scan_time_panics go_library (codes "2020-01-01")

abbrev id_column : ColumnInfo
id_column = record { name = codes "id"; column_type = some (codes "bigint") }

abbrev id_page : ResultPage
id_page = record {
  columns = some (some (id_column ∷ []));
  rows = (some (codes "id") ∷ []) ∷ (some (codes "1") ∷ []) ∷ [];
  update_count = none;
  next_token = none;
}

first_page-is_header_example :
    ((some (codes "id") ∷ [] ≡ names_of (id_column ∷ []))
      × (first_page id_page ≡ returned (behind_header id_page ((some (codes "1") ∷ []) ∷ []))))
    ⊎ ((some (codes "id") ∷ [] ≢ names_of (id_column ∷ []))
        × (first_page id_page ≡ returned (id_page, false)))
first_page-is_header_example =
    first_page-is_header id_page id_column [] (some (codes "id") ∷ [])
      ((some (codes "1") ∷ []) ∷ []) refl refl refl

athena_type_to_go_type-set_masked_column_value_example :
    (athena_type_to_go_type go_library id_column none
        (set_masked_column_value new_no_ops_config id_column.name (codes "xxx"))
      ≡ returned (Convert.text (codes "xxx")))
    × (check_column_masked
          (set_masked_column_value new_no_ops_config id_column.name (codes "xxx"))
          (codes "name")
        ≡ check_column_masked new_no_ops_config (codes "name"))
athena_type_to_go_type-set_masked_column_value_example =
    athena_type_to_go_type-set_masked_column_value go_library new_no_ops_config id_column none
      (codes "xxx") (codes "name") refl
