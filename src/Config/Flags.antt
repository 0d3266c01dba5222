-- ===== src/Config/Flags.antt =====
-- The Boolean settings of go/config.go, and the masks of columns.
pub mod RoundTrip
use athenadriver.Base.{Bool, not, List, [], ◌∷◌, ◌++◌, Option, none, some, Bytes, codes, bytes_eq}
use athenadriver.Config.{Config, get, put, bool_text}
use athenadriver.Errors.{Outcome, returned, panics}
use athenadriver.Url

-- `c.values.Get(key) == "true"`
abbrev is_true : Config → Bytes → Bool
is_true c key = bytes_eq (get c key) (codes "true")

unfoldable pub is_missing_as_empty_string : Config → Bool
is_missing_as_empty_string c = is_true c (codes "missingAsEmptyString")

unfoldable pub set_missing_as_empty_string : Config → Bool → Config
set_missing_as_empty_string c b = put c (codes "missingAsEmptyString") (bool_text b)

unfoldable pub is_missing_as_default : Config → Bool
is_missing_as_default c = is_true c (codes "missingAsDefault")

unfoldable pub set_missing_as_default : Config → Bool → Config
set_missing_as_default c b = put c (codes "missingAsDefault") (bool_text b)

unfoldable pub is_missing_as_nil : Config → Bool
is_missing_as_nil c = is_true c (codes "missingAsNil")

unfoldable pub set_missing_as_nil : Config → Bool → Config
set_missing_as_nil c b = put c (codes "missingAsNil") (bool_text b)

unfoldable pub is_wg_remote_creation_allowed : Config → Bool
is_wg_remote_creation_allowed c = is_true c (codes "WGRemoteCreation")

unfoldable pub set_wg_remote_creation_allowed : Config → Bool → Config
set_wg_remote_creation_allowed c b = put c (codes "WGRemoteCreation") (bool_text b)

unfoldable pub is_metrics_enabled : Config → Bool
is_metrics_enabled c = is_true c (codes "MetricsEnabled")

unfoldable pub set_metrics : Config → Bool → Config
set_metrics c b = put c (codes "MetricsEnabled") (bool_text b)

unfoldable pub is_read_only : Config → Bool
is_read_only c = is_true c (codes "ReadOnly")

unfoldable pub set_read_only : Config → Bool → Config
set_read_only c b = put c (codes "ReadOnly") (bool_text b)

unfoldable pub is_money_wise : Config → Bool
is_money_wise c = is_true c (codes "MoneyWise")

unfoldable pub set_money_wise : Config → Bool → Config
set_money_wise c b = put c (codes "MoneyWise") (bool_text b)

-- Logging is on unless it is set to "false".
unfoldable pub is_logging_enabled : Config → Bool
is_logging_enabled c = not (bytes_eq (get c (codes "LoggingEnabled")) (codes "false"))

unfoldable pub set_logging : Config → Bool → Config
set_logging c b = put c (codes "LoggingEnabled") (bool_text b)

-- `c.values["masked_"+columnName]`; a key with an empty list of values panics.
abbrev mask : Option (List Bytes) → Outcome (Option Bytes)
mask none = returned none
mask (some []) = panics
mask (some (v ∷ vs)) = returned (some v)

unfoldable pub check_column_masked : Config → Bytes → Outcome (Option Bytes)
check_column_masked c column = mask (Url.lookup c.values (codes "masked_" ++ column))

unfoldable pub set_masked_column_value : Config → Bytes → Bytes → Config
set_masked_column_value c column v = put c (codes "masked_" ++ column) v
