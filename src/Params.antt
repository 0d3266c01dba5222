-- ===== src/Params.antt =====
-- `Connection.interpolateParams` and `Connection.buildExecutionParams` of go/connection.go, with
-- the digit tables of go/constants.go. `strconv.FormatFloat(v, 'g', -1, 64)` is the parameter
-- `format_float`, over the bits of the number.
-- The query buffer is its bytes: `append` copies as it grows, and what `escapeBytesBackslash`
-- returns does not depend on the capacity (Escape/Buffer.antt), so it is called on a full slice.
pub mod Times
pub mod Reference
pub mod Splice
use athenadriver.Base.{
  ℕ, zero, suc, ◌+◌, ◌-◌, ◌*◌, ◌/◌, ◌%◌, Bool, true, false, not, ◌&&◌, List, [], ◌∷◌, ◌++◌, Option,
  none, some, ltb, ◌==◌, if◌then◌else◌, Bytes, codes, length, take, drop, get_elem?,
}
use athenadriver.Decimal.{ℤ, pos, negsuc, format_int, format_uint}
use athenadriver.Errors.{
  Outcome, returned, failed, panics, unfinished, ◌>>=◌, or_panic, invalid_query, query_unknown_type,
  query_buffer_of,
}
use athenadriver.Escape
use athenadriver.GoTime.{
  Time, is_zero, add_nanos, year, month, day, hour, minute, second, format_date_time, format_micro,
}
use athenadriver.Strings.{index_byte, count_byte}
use athenadriver.Values.{Value, null, int64, uint64, float64, boolean, time, bytes, text, other}

abbrev pub max_query_string_length : ℕ
max_query_string_length = 262_144

abbrev pub digits01 : Bytes
digits01 =
    codes
      "0123456789012345678901234567890123456789012345678901234567890123456789012345678901234567890123456789"

abbrev pub digits10 : Bytes
digits10 =
    codes
      "0000000000111111111122222222223333333333444444444455555555556666666666777777777788888888889999999999"

-- `digits10[n], digits01[n]`
pub two_digits : ℕ → Outcome Bytes
two_digits n = do
  a ← or_panic (get_elem? digits10 n)
  b ← or_panic (get_elem? digits01 n)
  returned (a ∷ b ∷ [])

-- `n / d` and `n % d`, which round towards 0.
abbrev negated : ℕ → ℤ
negated zero = pos 0
negated (suc n) = negsuc n

abbrev pub quotient : ℤ → ℕ → ℤ
quotient (pos n) d = pos (n / d)
quotient (negsuc n) d = negated (suc n / d)

abbrev pub remainder : ℤ → ℕ → ℤ
remainder (pos n) d = pos (n % d)
remainder (negsuc n) d = negated (suc n % d)

-- The same tables at a signed index.
pub signed_digits : ℤ → Outcome Bytes
unfolding two_digits
signed_digits (pos n) = two_digits n
signed_digits (negsuc n) = panics

-- What is appended for a time that is not zero; `v` is the time with the rounding added.
pub append_date_time : Bytes → Time → Outcome Bytes
unfolding two_digits signed_digits
append_date_time buf v = do
  y100 ← signed_digits (quotient (year v) 100)
  y1 ← signed_digits (remainder (year v) 100)
  mo ← two_digits (month v)
  d ← two_digits (day v)
  h ← two_digits (hour v)
  mi ← two_digits (minute v)
  s ← two_digits (second v)
  returned (
      buf
      ++ (b'\''
          ∷ (y100 ++ y1 ++ (b'-' ∷ mo) ++ (b'-' ∷ d) ++ (b' ' ∷ h) ++ (b':' ∷ mi) ++ (b':' ∷ s))))

pub append_micro : Bytes → ℕ → Outcome Bytes
unfolding two_digits
append_micro buf micro = do
  m10000 ← two_digits (micro / 10_000)
  m100 ← two_digits (micro / 100 % 100)
  m1 ← two_digits (micro % 100)
  returned (buf ++ (b'.' ∷ (m10000 ++ m100 ++ m1)))

-- The case `time.Time`.
unfoldable pub append_time : Bytes → Time → Outcome Bytes
unfolding append_date_time append_micro
append_time buf v = if is_zero v then returned (buf ++ codes "'0000-00-00'") else do
  let w = add_nanos v 500
  let micro = w.nanos / 1000
  dated ← append_date_time buf w
  timed ← (if not (micro == 0) then append_micro dated micro else returned dated)
  returned (timed ++ b'\'' ∷ [])

-- `escapeBytesBackslash(queryBuffer, v)`, as bytes.
pub append_escaped : Bytes → Bytes → Outcome Bytes
append_escaped buf v = do
  s ← or_panic (Escape.escape_bytes_backslash (Escape.full buf) v)
  returned (Escape.contents s)

-- NULL goes on with the loop before the length is tested.
abbrev pub is_null : Value → Bool
is_null null = true
is_null _ = false

-- The time case of `buildExecutionParams`.
unfoldable pub execution_time : Time → Bytes
execution_time v =
    if is_zero v
    then codes "'0000-00-00'"
    else let w = add_nanos v 500 in
      b'\'' ∷ ((if w.nanos / 1000 == 0 then format_date_time w else format_micro w) ++ b'\'' ∷ [])

module _ (format_float : ℕ → Bytes) where
  -- The type switch of `interpolateParams`.
  pub append_value : Bytes → Value → Outcome Bytes
  unfolding append_time append_escaped
  append_value buf null = returned (buf ++ codes "NULL")
  append_value buf (int64 v) = returned (buf ++ format_int v)
  append_value buf (uint64 v) = returned (buf ++ format_uint v)
  append_value buf (float64 v) = returned (buf ++ format_float v)
  append_value buf (boolean v) = returned (buf ++ (if v then codes "1" else codes "0"))
  append_value buf (time v) = append_time buf v
  append_value buf (bytes v) = do
    e ← append_escaped (buf ++ codes "_binary'") v
    returned (e ++ b'\'' ∷ [])
  append_value buf (text v) = do
    e ← append_escaped (buf ++ b'\'' ∷ []) v
    returned (e ++ b'\'' ∷ [])
  append_value buf other = failed query_unknown_type

  -- The loop over `i`; the list of bytes is `query[i:]`, and the list of values `args[argPos:]`.
  pub interpolate_loop : ℕ → Bytes → List Value → Bytes → Outcome Bytes
  unfolding append_value
  interpolate_loop fuel [] args buf = returned buf
  interpolate_loop zero (c ∷ cs) args buf = unfinished
  interpolate_loop (suc fuel) (c ∷ cs) args buf = elim (index_byte (c ∷ cs) b'?') [
    | none ↦ returned (buf ++ (c ∷ cs))
    | some q ↦ elim args [
      | [] ↦ panics
      | arg ∷ args' ↦ append_value (buf ++ take q (c ∷ cs)) arg >>= λ buf'.
          elim (not (is_null arg) && ltb (10 * max_query_string_length) (length buf' + 4)) [
            | true ↦ failed query_buffer_of
            | false ↦ interpolate_loop fuel (drop (suc q) (c ∷ cs)) args' buf'
          ]
    ]
  ]

  unfoldable pub interpolate_params : Bytes → List Value → Outcome Bytes
  unfolding interpolate_loop
  interpolate_params query args =
      if not (count_byte query b'?' == length args)
      then failed invalid_query
      else interpolate_loop (length query) query args []

  -- The type switch of `buildExecutionParams`.
  unfoldable pub execution_param : Value → Outcome Bytes
  unfolding execution_time
  execution_param null = returned (codes "NULL")
  execution_param (int64 v) = returned (format_int v)
  execution_param (uint64 v) = returned (format_uint v)
  execution_param (float64 v) = returned (format_float v)
  execution_param (boolean v) = returned (if v then codes "1" else codes "0")
  execution_param (time v) = returned (execution_time v)
  execution_param (bytes v) = returned v
  execution_param (text v) = returned v
  execution_param other = failed query_unknown_type

  unfoldable pub build_execution_params : List Value → Outcome (List Bytes)
  unfolding execution_param
  build_execution_params [] = returned []
  build_execution_params (arg ∷ args) = do
    val ← execution_param arg
    vals ← build_execution_params args
    returned (val ∷ vals)
