-- ===== src/GoTime/Bounds.antt =====
-- The ranges of the fields of a time.
use athenadriver.Base.{
  ℕ, ◌+◌, ◌-◌, ◌/◌, ◌%◌, ◌≤◌, ◌<◌, List, [], ◌∷◌, ltb, length, if◌then◌else◌, arith, Bool-cases,
  inl, inr,
}
use athenadriver.GoTime.{
  Time, absolute_year, find_month, month_day, month, day, year_in_cycle, is_leap, month_lengths,
}

year_in_cycle_days : (d : ℕ) → (year_in_cycle d).1 ≤ 365
unfolding year_in_cycle
year_in_cycle_days d = ground arith

abbrev sum : List ℕ → ℕ
sum [] = 0
sum (x ∷ xs) = x + sum xs

abbrev AllAtMost : List ℕ → ℕ → Type 0
AllAtMost [] n = Unit
AllAtMost (x ∷ xs) n = (x ≤ n) × AllAtMost xs n

find_month_bounds :
    (lens : List ℕ) (m y : ℕ)
    → AllAtMost lens 31
    → y < sum lens + 99
    → ((find_month lens m y).0 ≤ m + length lens) × ((find_month lens m y).1 < 100)
unfolding find_month
find_month_bounds [] m y a h = (omega arith, omega arith)
find_month_bounds (len ∷ lens) m y a h = elim (Bool-cases (ltb y len)) [
  | inl e ↦ rw e (omega arith, ground arith)
  | inr e ↦ rw e (
    omega (arith, (find_month_bounds lens (m + 1) (y - len) a.1 (ground arith)).0),
    (find_month_bounds lens (m + 1) (y - len) a.1 (ground arith)).1,
  )
]

february : (y : ℕ) → (28 ≤ (if is_leap y then 29 else 28)) × ((if is_leap y then 29 else 28) ≤ 29)
february y = ground arith

month_day_bounds : (t : Time) → ((month_day t).0 < 100) × ((month_day t).1 < 100)
unfolding month_day
month_day_bounds t =
    let b =
      find_month_bounds (month_lengths (absolute_year t)) 1
        (year_in_cycle (t.seconds / 86_400 % 146_097)).1 (omega (arith, february (absolute_year t)))
        (omega
          (arith, february (absolute_year t), year_in_cycle_days (t.seconds / 86_400 % 146_097))) in
    (omega (arith, b.0), b.1)

-- Month and day have two digits at most.
pub month-lt-100 : (t : Time) → month t < 100
unfolding month
month-lt-100 t = (month_day_bounds t).0

pub day-lt-100 : (t : Time) → day t < 100
unfolding day
day-lt-100 t = (month_day_bounds t).1
