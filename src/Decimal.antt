-- ===== src/Decimal.antt =====
-- Decimal numbers as Go's package strconv writes and reads them: `Itoa`, `FormatInt`,
-- `FormatUint`, `AppendInt`, `AppendUint`, `Atoi` and `ParseInt` in base 10.
use athenadriver.Base.{
  ℕ, zero, suc, ◌+◌, ◌-◌, ◌*◌, ◌/◌, ◌%◌, ◌^◌, ◌≤◌, ◌<◌, Bool, true, false, ◌&&◌, List, [], ◌∷◌,
  ◌++◌, Option, none, some, ltb, leb, ◌==◌, if◌then◌else◌, Bytes, ◌≡◌, refl, ap, ◌∙◌, sym, arith,
  Bool-cases, inl, inr, ◌⊎◌, lt→ltb,
}
pub mod RoundTrip

-- A signed integer; `negsuc n` is -(n + 1).
pub data ℤ : Type 0 where
  pos : ℕ → ℤ
  negsuc : ℕ → ℤ

-- The digits of `n`, with fuel; `n + 1` is enough.
pub format_digits : ℕ → ℕ → Bytes
format_digits zero n = []
format_digits (suc fuel) n =
    let rest = format_digits fuel (n / 10) in
    if ltb n 10 then (b'0' + n) ∷ [] else rest ++ (b'0' + n % 10) ∷ []

unfoldable pub format_uint : ℕ → Bytes
unfolding format_digits
format_uint n = format_digits (suc n) n

unfoldable pub format_int : ℤ → Bytes
unfolding format_uint
format_int (pos n) = format_uint n
format_int (negsuc n) = b'-' ∷ format_uint (suc n)

abbrev pub is_digit : ℕ → Bool
is_digit c = leb b'0' c && leb c b'9'

-- The loop of `ParseUint`; the overflow test stands in `parse_int`.
unfoldable pub parse_digits : ℕ → Bytes → Option ℕ
parse_digits acc [] = some acc
parse_digits acc (c ∷ s) =
    let rest = parse_digits (acc * 10 + (c - b'0')) s in if is_digit c then rest else none

unfoldable pub parse_uint : Bytes → Option ℕ
unfolding parse_digits
parse_uint [] = none
parse_uint (c ∷ s) = parse_digits 0 (c ∷ s)

-- The range test of `ParseInt` for a width of `suc w` bits.
abbrev pub in_range : ℕ → ℤ → Bool
in_range w (pos n) = ltb n (2 ^ w)
in_range w (negsuc n) = ltb n (2 ^ w)

abbrev pub negate : ℕ → ℤ
negate zero = pos 0
negate (suc n) = negsuc n

abbrev pub check_range : ℕ → ℤ → Option ℤ
check_range w z = if in_range w z then some z else none

abbrev pub parse_signed : ℕ → (ℕ → ℤ) → Option ℕ → Option ℤ
parse_signed w f none = none
parse_signed w f (some n) = check_range w (f n)

-- `strconv.ParseInt(s, 10, w + 1)`, where `none` is an error.
unfoldable pub parse_int : ℕ → Bytes → Option ℤ
unfolding parse_uint
parse_int w [] = none
parse_int w (c ∷ s) =
    if c == b'-'
    then parse_signed w negate (parse_uint s)
    else if c == b'+'
    then parse_signed w pos (parse_uint s)
    else parse_signed w pos (parse_uint (c ∷ s))

-- `ParseUint` into 64 bits: a bad byte, a number that does not fit, or a number.
pub data Parsed : Type 0 where
  bad large : Parsed
  num : ℕ → Parsed

unfoldable pub parse_u64 : ℕ → Bytes → Parsed
parse_u64 acc [] = num acc
parse_u64 acc (c ∷ s) =
    let n = acc * 10 + (c - b'0') in
    let rest = parse_u64 n s in if is_digit c then if ltb n (2 ^ 64) then rest else large else bad

-- The value and whether there was no error: out of range, the value is the nearest bound.
abbrev signed : Bool → Parsed → ℤ × Bool
signed neg bad = (pos 0, false)
signed true large = (negsuc (2 ^ 63 - 1), false)
signed false large = (pos (2 ^ 63 - 1), false)
signed true (num n) = if leb n (2 ^ 63) then (negate n, true) else (negsuc (2 ^ 63 - 1), false)
signed false (num n) = if ltb n (2 ^ 63) then (pos n, true) else (pos (2 ^ 63 - 1), false)

abbrev parse_some : Bytes → Parsed
parse_some [] = bad
parse_some (c ∷ s) = parse_u64 0 (c ∷ s)

-- `strconv.Atoi`
unfoldable pub atoi : Bytes → ℤ × Bool
unfolding parse_u64
atoi [] = (pos 0, false)
atoi (c ∷ s) =
    if c == b'-'
    then signed true (parse_some s)
    else if c == b'+'
    then signed false (parse_some s)
    else signed false (parse_some (c ∷ s))
