-- ===== src/ServiceLimit.antt =====
-- go/servicelimitoverride.go, and `isQueryTimeOut` of go/utils.go.
-- The Go type `int` is ℤ here; a number read from a text is held to 64 bits.
pub mod Timeout
use athenadriver.Base.{
  ℕ, Bool, true, false, ◌&&◌, List, [], ◌∷◌, Option, none, some, ltb, if◌then◌else◌, Bytes, codes,
  ◌≡◌, refl,
}
use athenadriver.Decimal.{ℤ, pos, negsuc, format_int, atoi}
use athenadriver.Errors.{Error, service_limit_override}
use athenadriver.Url.{Values}
use athenadriver.Url

pub record ServiceLimitOverride : Type 0 where
  pub ddl_query_timeout : ℤ
  pub dml_query_timeout : ℤ

abbrev pub pool_interval : ℕ
pool_interval = 3

unfoldable pub new_service_limit_override : ServiceLimitOverride
new_service_limit_override = record { ddl_query_timeout = pos 0; dml_query_timeout = pos 0 }

-- `seconds >= 0 && seconds < PoolInterval`
abbrev pub too_small : ℤ → Bool
too_small (pos n) = ltb n pool_interval
too_small (negsuc n) = false

unfoldable pub set_ddl_query_timeout :
    ServiceLimitOverride → ℤ → ServiceLimitOverride × Option Error
set_ddl_query_timeout c seconds =
    if too_small seconds
    then (c, some service_limit_override)
    else (record c { ddl_query_timeout = seconds }, none)

unfoldable pub set_dml_query_timeout :
    ServiceLimitOverride → ℤ → ServiceLimitOverride × Option Error
set_dml_query_timeout c seconds =
    if too_small seconds
    then (c, some service_limit_override)
    else (record c { dml_query_timeout = seconds }, none)

unfoldable pub get_as_string_map : ServiceLimitOverride → List (Bytes × Bytes)
get_as_string_map c =
    (codes "DDLQueryTimeout", format_int c.ddl_query_timeout)
    ∷ (codes "DMLQueryTimeout", format_int c.dml_query_timeout)
    ∷ []

-- `strconv.Atoi` with its error dropped.
abbrev number : Values → Bytes → ℤ
number kvp key = (atoi (Url.get kvp key)).0

unfoldable pub set_from_values : ServiceLimitOverride → Values → ServiceLimitOverride
unfolding set_ddl_query_timeout set_dml_query_timeout
set_from_values c kvp =
    let d = (set_ddl_query_timeout c (number kvp (codes "DDLQueryTimeout"))).0 in
    (set_dml_query_timeout d (number kvp (codes "DMLQueryTimeout"))).0
