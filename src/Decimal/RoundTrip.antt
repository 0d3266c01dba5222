-- ===== src/Decimal/RoundTrip.antt =====
-- Reading a number that was written gives it back.
use athenadriver.Base.{
  ℕ, zero, suc, ◌+◌, ◌-◌, ◌*◌, ◌/◌, ◌%◌, ◌^◌, ◌≤◌, ◌<◌, true, false, [], ◌∷◌, ◌++◌, Option, none,
  some, ltb, Bytes, ◌≡◌, ap, ◌∙◌, sym, arith, Bool-cases, inl, inr, lt→ltb, ==_false,
}
use athenadriver.Decimal.{
  ℤ, pos, negsuc, format_digits, format_uint, format_int, is_digit, parse_digits, parse_uint,
  parse_int, parse_signed, check_range, num, parse_u64, signed, atoi,
}

abbrev then_digit : Option ℕ → ℕ → Option ℕ
then_digit none d = none
then_digit (some a) d = some (a * 10 + d)

parse_digits-snoc :
    (acc d : ℕ) (s : Bytes)
    → d < 10
    → parse_digits acc (s ++ (b'0' + d) ∷ []) ≡ then_digit (parse_digits acc s) d
unfolding parse_digits
parse_digits-snoc acc d [] h = ground arith
parse_digits-snoc acc d (c ∷ s) h = elim (Bool-cases (is_digit c)) [
  | inl e ↦ rw e (parse_digits-snoc (acc * 10 + (c - b'0')) d s h)
  | inr e ↦ rw e
]

parse_digits-format : (fuel n : ℕ) → n < fuel → parse_digits 0 (format_digits fuel n) ≡ some n
unfolding format_digits
parse_digits-format zero n h = elim h [ ]
parse_digits-format (suc fuel) n h = elim (Bool-cases (ltb n 10)) [
  | inl e ↦
      rw e (parse_digits-snoc 0 n [] (ground arith) ∙ unfold parse_digits in ap some (omega arith))
  | inr e ↦ rw e (
      parse_digits-snoc 0 (n % 10) (format_digits fuel (n / 10)) (omega arith)
      ∙ rw (parse_digits-format fuel (n / 10) (ground arith)) (ap some (omega arith)))
]

-- The text of a number begins with a digit.
format_digits-cons :
    (fuel n : ℕ)
    → n < fuel
    → (c : ℕ) × (s : Bytes) × (format_digits fuel n ≡ c ∷ s) × (b'0' ≤ c) × (c ≤ b'9')
unfolding format_digits
format_digits-cons zero n h = elim h [ ]
format_digits-cons (suc fuel) n h = elim (Bool-cases (ltb n 10)) [
  | inl e ↦ (b'0' + n, [], rw e, omega arith, ground arith)
  | inr e ↦
      let (c, s, w, lo, hi) = format_digits-cons fuel (n / 10) (ground arith) in
      (c, s ++ (b'0' + n % 10) ∷ [], rw (e, w), lo, hi)
]

pub parse_uint-format_uint : (n : ℕ) → parse_uint (format_uint n) ≡ some n
unfolding parse_uint format_uint
parse_uint-format_uint n =
    let (c, s, w, lo, hi) = format_digits-cons (suc n) n (omega arith) in
    rw (w, parse_uint) (ap (parse_digits 0) (sym w) ∙ parse_digits-format (suc n) n (omega arith))

format_uint-cons :
    (n : ℕ) → (c : ℕ) × (s : Bytes) × (format_uint n ≡ c ∷ s) × (b'0' ≤ c) × (c ≤ b'9')
unfolding format_uint
format_uint-cons n = format_digits-cons (suc n) n (omega arith)

parse_int-unsigned :
    (w c : ℕ) (s : Bytes) → b'0' ≤ c → parse_int w (c ∷ s) ≡ parse_signed w pos (parse_uint (c ∷ s))
unfolding parse_int
parse_int-unsigned w c s h = rw (==_false c b'-' (omega arith), ==_false c b'+' (omega arith))

-- `ParseInt` of what `FormatInt` wrote gives the number back when it fits the width, and an
-- error when it does not.
pub parse_int-format_int : (w : ℕ) (z : ℤ) → parse_int w (format_int z) ≡ check_range w z
unfolding format_int
parse_int-format_int w (pos n) =
    let (c, s, e, lo, hi) = format_uint-cons n in
    rw e (parse_int-unsigned w c s lo ∙ rw (← e) (rw (parse_uint-format_uint n)))
parse_int-format_int w (negsuc n) = unfold parse_int in rw (parse_uint-format_uint (suc n))

parse_digits-le : (acc : ℕ) (s : Bytes) {n : ℕ} → parse_digits acc s ≡ some n → acc ≤ n
unfolding parse_digits
parse_digits-le acc [] h = ground arith
parse_digits-le acc (c ∷ s) {n} h =
    ground (arith, parse_digits-le (acc * 10 + (c - b'0')) s {n = n})

parse_u64-parse_digits :
    (acc : ℕ) (s : Bytes) {n : ℕ}
    → parse_digits acc s ≡ some n
    → n < 2 ^ 64
    → parse_u64 acc s ≡ num n
unfolding parse_digits parse_u64
parse_u64-parse_digits acc [] h k = ground arith
parse_u64-parse_digits acc (c ∷ s) {n} h k = ground (
  arith,
  parse_digits-le (acc * 10 + (c - b'0')) s {n = n},
  parse_u64-parse_digits (acc * 10 + (c - b'0')) s {n = n},
)

parse_u64-format_uint : (n : ℕ) → n < 2 ^ 64 → parse_u64 0 (format_uint n) ≡ num n
unfolding format_uint
parse_u64-format_uint n h =
    parse_u64-parse_digits 0 (format_uint n) (parse_digits-format (suc n) n (omega arith)) h

-- The integer fits into 64 bits.
abbrev pub IsInt64 : ℤ → Type 0
IsInt64 (pos n) = n < 2 ^ 63
IsInt64 (negsuc n) = n < 2 ^ 63

atoi-unsigned :
    (c : ℕ) (s : Bytes) {n : ℕ}
    → b'0' ≤ c
    → parse_u64 0 (c ∷ s) ≡ num n
    → n < 2 ^ 63
    → atoi (c ∷ s) ≡ (pos n, true)
unfolding atoi
atoi-unsigned c s h e k =
    rw (==_false c b'-' (omega arith), ==_false c b'+' (omega arith))
      (ap (signed false) e ∙ rw (lt→ltb _ _ k))

-- `Atoi` of what `Itoa` wrote gives the number back, with no error.
pub atoi-format_int : (z : ℤ) → IsInt64 z → atoi (format_int z) ≡ (z, true)
unfolding format_int
atoi-format_int (pos n) h =
    let (c, s, e, lo, hi) = format_uint-cons n in
    rw e (atoi-unsigned c s lo (ap (parse_u64 0) (sym e) ∙ parse_u64-format_uint n (omega arith)) h)
atoi-format_int (negsuc n) h =
    let (c, s, e, lo, hi) = format_uint-cons (suc n) in
    let p : parse_u64 0 (c ∷ s) ≡ num (suc n) =
      ap (parse_u64 0) (sym e) ∙ parse_u64-format_uint (suc n) (omega arith) in
    ap atoi (ap (◌∷◌ b'-') e) ∙ (unfold atoi in (ap (signed true) p ∙ ground arith))
