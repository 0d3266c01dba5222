-- ===== src/ServiceLimit/Timeout.antt =====
-- `isQueryTimeOut` of go/utils.go. Times are in nanoseconds, and the elapsed time is what
-- `time.Since` measures on the monotonic clock.
use athenadriver.Base.{
  ℕ, ◌*◌, ◌%◌, ◌^◌, Bool, true, false, not, Option, none, some, ltb, ◌==◌, if◌then◌else◌,
}
use athenadriver.Decimal.{ℤ, pos, negsuc}
use athenadriver.ServiceLimit.{ServiceLimitOverride}

abbrev pub default_ddl_query_timeout : ℤ
default_ddl_query_timeout = pos 36_000

abbrev pub default_dml_query_timeout : ℤ
default_dml_query_timeout = pos 1_800

-- `types.StatementType`: the three that Athena has, the driver's own, and any other text.
pub data StatementType : Type 0 where
  ddl dml utility timeout_now unknown : StatementType

abbrev is_zero : ℤ → Bool
is_zero (pos n) = n == 0
is_zero (negsuc n) = false

-- The default, unless the override has a value other than 0.
abbrev pub chosen : ℤ → Option ServiceLimitOverride → (ServiceLimitOverride → ℤ) → ℤ
chosen default none get = default
chosen default (some o) get = if not (is_zero (get o)) then get o else default

-- `elapsed > time.Duration(n) * time.Second` in an int64, which wraps around.
abbrev pub past : ℕ → ℕ → Bool
past n elapsed =
    let d = n * 1_000_000_000 % 2 ^ 64 in if ltb d (2 ^ 63) then ltb d elapsed else true

-- `timeout >= 0 && …`
abbrev pub expired : ℤ → ℕ → Bool
expired (pos n) elapsed = past n elapsed
expired (negsuc n) elapsed = false

unfoldable pub is_query_time_out : ℕ → StatementType → Option ServiceLimitOverride → Bool
is_query_time_out elapsed ddl override =
    expired (chosen default_ddl_query_timeout override (λ o. o.ddl_query_timeout)) elapsed
is_query_time_out elapsed dml override =
    expired (chosen default_dml_query_timeout override (λ o. o.dml_query_timeout)) elapsed
is_query_time_out elapsed utility override =
    expired (chosen default_dml_query_timeout override (λ o. o.dml_query_timeout)) elapsed
is_query_time_out elapsed timeout_now override = true
is_query_time_out elapsed unknown override =
    expired (chosen default_ddl_query_timeout override (λ o. o.ddl_query_timeout)) elapsed
