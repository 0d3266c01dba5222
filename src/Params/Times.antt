-- ===== src/Params/Times.antt =====
-- The two ways of writing a time agree: the digit tables of `interpolateParams`, and the layouts
-- of `buildExecutionParams`.
use mathlib.Core.List.{append_assoc}
use athenadriver.Base.{
  if◌then◌else◌, ℕ, zero, suc, ◌+◌, ◌/◌, ◌%◌, ◌≤◌, ◌<◌, Bool, true, false, [], ◌∷◌, ◌++◌, ◌==◌,
  Bytes, bytes_eq, bytes_eq_iff, length, take, ◌≡◌, refl, ap, arith, Bool-cases, inl, inr,
  get_elem?, none, ◌⊎◌, ◌≢◌,
}
use athenadriver.Decimal.{ℤ, pos, negsuc}
use athenadriver.Errors.{Outcome, returned, failed, panics, unfinished}
use athenadriver.GoTime.{
  Time, is_zero, add_nanos, year, month, day, hour, minute, second, format_date_time, format_micro,
  append_int, padded, seconds_before, absolute_year,
}
use athenadriver.GoTime.Bounds.{month-lt-100, day-lt-100}
use athenadriver.Params.{
  digits10, two_digits, signed_digits, quotient, remainder, negated, append_date_time, append_micro,
  append_time, execution_time,
}

-- Every row of a table with `size` rows passes the test.
table_passes : (test : ℕ → Bool) (size : ℕ) → Bool
table_passes test zero = true
table_passes test (suc size) = if test size then table_passes test size else false

table_row :
    (test : ℕ → Bool) (size row : ℕ) → table_passes test size ≡ true → row < size → test row ≡ true
unfolding table_passes
table_row test zero row passes inside = absurd (omega arith)
table_row test (suc size) row passes inside = ground (arith, table_row test size row)

-- Two decimal digits.
abbrev pair : ℕ → Bytes
pair n = (b'0' + n / 10) ∷ (b'0' + n % 10) ∷ []

abbrev returns : Outcome Bytes → Bytes → Bool
returns (returned a) b = bytes_eq a b
returns _ b = false

returns_sound : (o : Outcome Bytes) (b : Bytes) → returns o b ≡ true → o ≡ returned b
returns_sound (returned a) b h = ap returned ((bytes_eq_iff a b).0 h)
returns_sound (failed e) b h = cc
returns_sound panics b h = cc
returns_sound unfinished b h = cc

two_digits_table : table_passes (λ n. returns (two_digits n) (pair n)) 100 ≡ true
unfolding table_passes two_digits
two_digits_table = refl

append_int_table : table_passes (λ n. bytes_eq (append_int n 2) (pair n)) 100 ≡ true
unfolding table_passes append_int
append_int_table = refl

year_table :
    table_passes (λ n. bytes_eq (append_int n 4) (pair (n / 100) ++ pair (n % 100))) 10_000 ≡ true
unfolding table_passes append_int
year_table = refl

two_digits-pair : (n : ℕ) → n < 100 → two_digits n ≡ returned (pair n)
two_digits-pair n h = returns_sound _ _ (table_row _ 100 n two_digits_table h)

append_int-pair : (n : ℕ) → n < 100 → append_int n 2 ≡ pair n
append_int-pair n h = (bytes_eq_iff _ _).0 (table_row _ 100 n append_int_table h)

append_int-year : (n : ℕ) → n < 10_000 → append_int n 4 ≡ pair (n / 100) ++ pair (n % 100)
append_int-year n h = (bytes_eq_iff _ _).0 (table_row _ 10_000 n year_table h)

-- The year is one of the years 0 to 9999, which the digit tables cover.
abbrev pub IsTabulated : ℤ → Type 0
IsTabulated (pos y) = y < 10_000
IsTabulated (negsuc y) = ⊥

tabulated : (y : ℤ) → IsTabulated y → (n : ℕ) × (y ≡ pos n) × (n < 10_000)
tabulated (pos n) h = (n, refl, h)
tabulated (negsuc n) h = absurd h

append_date_time-format :
    (buf : Bytes) (v : Time)
    → IsTabulated (year v)
    → append_date_time buf v ≡ returned (buf ++ (b'\'' ∷ format_date_time v))
unfolding append_date_time format_date_time signed_digits
append_date_time-format buf v h =
    let (y, e, l) = tabulated (year v) h in
    let mo = month-lt-100 v in
    let d = day-lt-100 v in
    rw
      (
        e,
        two_digits-pair (y / 100) (omega arith),
        two_digits-pair (y % 100) (omega arith),
        two_digits-pair (month v) mo,
        two_digits-pair (day v) d,
        two_digits-pair (hour v) (omega arith),
        two_digits-pair (minute v) (omega arith),
        two_digits-pair (second v) (omega arith),
      )
      (rw (
        append_int-year y l,
        append_int-pair (month v) mo,
        append_int-pair (day v) d,
        append_int-pair (hour v) (omega arith),
        append_int-pair (minute v) (omega arith),
        append_int-pair (second v) (omega arith),
      ))

-- The six digits of the microseconds.
abbrev micro_digits : ℕ → Bytes
micro_digits m = pair (m / 10_000) ++ pair (m / 100 % 100) ++ pair (m % 100)

take-padded : (n : ℕ) → n < 1_000_000_000 → take 6 (padded 9 n) ≡ micro_digits (n / 1000)
unfolding padded
take-padded n h = ground arith

append_micro-digits :
    (buf : Bytes) (m : ℕ)
    → m < 1_000_000
    → append_micro buf m ≡ returned (buf ++ (b'.' ∷ micro_digits m))
unfolding append_micro
append_micro-digits buf m h = rw (
  two_digits-pair (m / 10_000) (omega arith),
  two_digits-pair (m / 100 % 100) (omega arith),
  two_digits-pair (m % 100) (omega arith),
)

-- When the year, rounded as the code rounds, is one of the years 0 to 9999, `interpolateParams`
-- appends for a time exactly the text that `buildExecutionParams` makes of it; it reads no digit
-- table out of range.
pub append_time-execution_time :
    (buf : Bytes) (v : Time)
    → IsTabulated (year (add_nanos v 500))
    → append_time buf v ≡ returned (buf ++ execution_time v)
unfolding append_time execution_time
append_time-execution_time buf v h = elim (Bool-cases (is_zero v)) [
  | inl z ↦ rw z
  | inr z ↦
      let w = add_nanos v 500 in
      rw (z, append_date_time-format buf w h)
        (elim (Bool-cases (w.nanos / 1000 == 0)) [
          | inl m ↦ rw m (simp append_assoc)
          | inr m ↦
              rw
                (
                  m,
                  append_micro-digits (buf ++ (b'\'' ∷ format_date_time w)) (w.nanos / 1000)
                      (omega arith),
                )
                (ap returned (
                  unfold format_micro in
                  rw (take-padded w.nanos (omega arith)) (simp append_assoc)))
        ])
]

get_elem?-beyond : (xs : Bytes) (n : ℕ) → length xs ≤ n → get_elem? xs n ≡ none
get_elem?-beyond [] n h = refl
get_elem?-beyond (x ∷ xs) zero h = absurd (omega arith)
get_elem?-beyond (x ∷ xs) (suc n) h = get_elem?-beyond xs n (omega arith)

zero-IsTabulated : (v : Time) → is_zero v ≡ true → IsTabulated (year (add_nanos v 500))
unfolding year absolute_year
zero-IsTabulated v z =
    let s : v.seconds ≡ seconds_before = ground arith in
    let n : v.nanos ≡ 0 = ground arith in rw (s, n) (omega arith)

negated_beyond : (n : ℕ) → n ≢ 0 → signed_digits (negated n) ≡ panics
unfolding signed_digits
negated_beyond zero h = absurd (h refl)
negated_beyond (suc n) h = refl

-- The digits of the year panic in the first reading or in the second.
year_panics :
    (y : ℤ)
    → ¬ IsTabulated y
    → (signed_digits (quotient y 100) ≡ panics)
      ⊎ ((s : Bytes) × (signed_digits (quotient y 100) ≡ returned s)
          × (signed_digits (remainder y 100) ≡ panics))
unfolding signed_digits two_digits
year_panics (pos y) h =
    let far : 10_000 ≤ y = omega arith in
    inl (rw (get_elem?-beyond digits10 (y / 100) (omega arith)))
year_panics (negsuc y) h = elim (Bool-cases (suc y / 100 == 0)) [
  | inl e ↦
      let z : suc y / 100 ≡ 0 = ground arith in
      inr
        (pair 0, ap (λ n. signed_digits (negated n)) z, negated_beyond (suc y % 100) (omega arith))
  | inr e ↦ inl (negated_beyond (suc y / 100) (ground arith))
]

-- Of a time whose year, rounded as the code rounds, is negative or has five digits or more,
-- `interpolateParams` reads the digit tables out of range: it panics, where
-- `buildExecutionParams` still makes a text.
pub append_time_panics :
    (buf : Bytes) (v : Time) → ¬ IsTabulated (year (add_nanos v 500)) → append_time buf v ≡ panics
unfolding append_time append_date_time
append_time_panics buf v h = elim (Bool-cases (is_zero v)) [
  | inl z ↦ absurd (h (zero-IsTabulated v z))
  | inr z ↦ elim (year_panics (year (add_nanos v 500)) h) [
    | inl e ↦ rw (z, e)
    | inr (s, e, f) ↦ rw (z, e, f)
  ]
]
