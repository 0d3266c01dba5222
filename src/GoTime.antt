-- ===== src/GoTime.antt =====
-- What the driver uses of Go's package time: an instant, its fields in UTC, and the layouts
-- `time.DateTime` and `timestampFormatDriverMicro`. An instant is the seconds since 1 January of the
-- year -292277022399, where package time counts its absolute days from, and the nanoseconds; earlier
-- instants are outside of this model.
pub mod Bounds
use athenadriver.Base.{
  ℕ, zero, suc, ◌+◌, ◌-◌, ◌*◌, ◌/◌, ◌%◌, Bool, true, false, not, ◌&&◌, ◌||◌, List, [], ◌∷◌, ◌++◌,
  ltb, leb, ◌==◌, if◌then◌else◌, Bytes, codes, length, take, replicate,
}
use athenadriver.Decimal.{ℤ, pos, negsuc, format_uint}

pub record Time : Type 0 where
  pub seconds : ℕ
  pub nanos : ℕ

-- The years from the first one to the year 1, a multiple of 400, and their seconds.
abbrev pub years_before : ℕ
years_before = 292_277_022_400

abbrev pub seconds_before : ℕ
seconds_before = 9_223_371_966_579_724_800

-- `t.IsZero()`: the zero time is 0001-01-01 00:00:00 UTC.
abbrev pub is_zero : Time → Bool
is_zero t = t.seconds == seconds_before && t.nanos == 0

-- `t.Add(n * time.Nanosecond)`
abbrev pub add_nanos : Time → ℕ → Time
add_nanos t n = record {
  seconds = t.seconds + (t.nanos + n) / 1_000_000_000;
  nanos = (t.nanos + n) % 1_000_000_000;
}

-- The number of a capped division, and what is left.
abbrev capped : ℕ → ℕ → ℕ → ℕ
capped n d cap = if ltb cap (n / d) then cap else n / d

-- The year and the day of the year, by cycles of 400, 100, 4 and 1 years.
year_in_cycle : ℕ → ℕ × ℕ
year_in_cycle d =
    let n100 = capped d 36_524 3 in
    let d100 = d - 36_524 * n100 in
    let n4 = d100 / 1_461 in
    let d4 = d100 % 1_461 in let n1 = capped d4 365 3 in (100 * n100 + 4 * n4 + n1, d4 - 365 * n1)

-- The year, where the first one is 1.
unfoldable pub absolute_year : Time → ℕ
unfolding year_in_cycle
absolute_year t =
    let days = t.seconds / 86_400 in 400 * (days / 146_097) + (year_in_cycle (days % 146_097)).0 + 1

abbrev from_absolute : ℕ → ℤ
from_absolute y =
    if ltb y years_before then negsuc (years_before - y - 1) else pos (y - years_before)

-- `t.Year()`; the year before the year 1 is the year 0.
unfoldable pub year : Time → ℤ
unfolding absolute_year
year t = from_absolute (absolute_year t)

abbrev is_leap : ℕ → Bool
is_leap y = y % 4 == 0 && (not (y % 100 == 0) || y % 400 == 0)

-- The month and the day of a day of the year, given the lengths of the months ahead.
find_month : List ℕ → ℕ → ℕ → ℕ × ℕ
find_month [] m yday = (m, yday + 1)
find_month (len ∷ lens) m yday =
    let later = find_month lens (m + 1) (yday - len) in
    if ltb yday len then (m, yday + 1) else later

-- December stands for all that is left.
abbrev month_lengths : ℕ → List ℕ
month_lengths y =
    31 ∷ (if is_leap y then 29 else 28) ∷ 31 ∷ 30 ∷ 31 ∷ 30 ∷ 31 ∷ 31 ∷ 30 ∷ 31 ∷ 30 ∷ []

month_day : Time → ℕ × ℕ
unfolding find_month absolute_year
month_day t =
    find_month (month_lengths (absolute_year t)) 1 (year_in_cycle (t.seconds / 86_400 % 146_097)).1

-- `t.Month()`, `t.Day()`, `t.Hour()`, `t.Minute()`, `t.Second()`
unfoldable pub month : Time → ℕ
unfolding month_day
month t = (month_day t).0

unfoldable pub day : Time → ℕ
unfolding month_day
day t = (month_day t).1

abbrev pub hour : Time → ℕ
hour t = t.seconds % 86_400 / 3_600

abbrev pub minute : Time → ℕ
minute t = t.seconds % 3_600 / 60

abbrev pub second : Time → ℕ
second t = t.seconds % 60

-- `appendInt(b, n, width)`: the decimal digits, with zeros in front up to the width.
unfoldable pub append_int : ℕ → ℕ → Bytes
unfolding format_uint
append_int n width = let digits = format_uint n in replicate (width - length digits) b'0' ++ digits

-- The same of a year of width 4, whose sign does not count.
abbrev append_year : ℤ → Bytes
append_year (pos y) = append_int y 4
append_year (negsuc y) = b'-' ∷ append_int (suc y) 4

-- The last `width` decimal digits of `n`.
unfoldable pub padded : ℕ → ℕ → Bytes
padded zero n = []
padded (suc width) n = padded width (n / 10) ++ (b'0' + n % 10) ∷ []

-- `t.Format(time.DateTime)`
unfoldable pub format_date_time : Time → Bytes
unfolding append_int year
format_date_time t =
    append_year (year t)
    ++ (b'-' ∷ append_int (month t) 2)
    ++ (b'-' ∷ append_int (day t) 2)
    ++ (b' ' ∷ append_int (hour t) 2)
    ++ (b':' ∷ append_int (minute t) 2)
    ++ (b':' ∷ append_int (second t) 2)

-- `t.Format("2006-01-02 15:04:05.000000")`: the nine digits of the nanoseconds, cut to six.
unfoldable pub format_micro : Time → Bytes
unfolding format_date_time padded
format_micro t = format_date_time t ++ (b'.' ∷ take 6 (padded 9 t.nanos))
