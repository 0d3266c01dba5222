-- ===== src/Rows/Convert/Mask.antt =====
-- The masks of columns, of go/config.go and go/rows.go.
use athenadriver.Base.{false, Option, Bytes, codes, bytes_eq, bytes_eq_refl, ◌≡◌, refl, ◌++◌}
use athenadriver.Config.Flags.{check_column_masked, set_masked_column_value}
use athenadriver.Config.{Config}
use athenadriver.Errors.{returned}
use athenadriver.Rows.Convert.{text, Library, athena_type_to_go_type}
use athenadriver.Rows.Page.{ColumnInfo}
use athenadriver.Url.{lookup-put}

-- A column that is masked gives the mask in place of every value, whatever its type and also
-- where the value is missing, and no other column becomes masked or loses its mask by it.
pub athena_type_to_go_type-set_masked_column_value :
    (library : Library) (config : Config) (column : ColumnInfo) (raw : Option Bytes)
    (mask other : Bytes)
    → bytes_eq column.name other ≡ false
    → (athena_type_to_go_type library column raw (set_masked_column_value config column.name mask)
        ≡ returned (text mask))
      × (check_column_masked (set_masked_column_value config column.name mask) other
          ≡ check_column_masked config other)
unfolding athena_type_to_go_type check_column_masked set_masked_column_value
athena_type_to_go_type-set_masked_column_value library config column raw mask other h = (
  rw
      (
        lookup-put config.values (codes "masked_" ++ column.name) (codes "masked_" ++ column.name)
            mask,
        bytes_eq_refl column.name,
      )
      refl,
  rw (lookup-put config.values (codes "masked_" ++ column.name) (codes "masked_" ++ other) mask, h)
      refl,
)
