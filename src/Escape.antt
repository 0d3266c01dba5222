-- ===== src/Escape.antt =====
-- The escaping of query arguments: `escapeBytesBackslash`, `escapeStringBackslash`,
-- `reserveBuffer`, `FormatString` and `FormatBytes` of go/utils.go.
-- A byte slice is its backing array, as long as the capacity, and its length. A write outside of
-- the length panics in Go, which is `none` here.
pub mod Buffer
pub mod RoundTrip
pub mod Literal
use athenadriver.Base.{
  ℕ, zero, suc, ◌+◌, ◌*◌, Bool, List, [], ◌∷◌, ◌++◌, Option, none, some, ltb, ◌==◌, if◌then◌else◌,
  length, set, take, drop, replicate, Bytes, codes,
}

pub record Slice : Type 0 where
  pub backing : Bytes
  pub len : ℕ

-- The bytes that a reader of the slice sees.
abbrev pub contents : Slice → Bytes
contents s = take s.len s.backing

-- A slice whose capacity is its length, such as `[]byte(s)`.
abbrev pub full : Bytes → Slice
full b = record { backing = b; len = length b }

-- `buf[i] = c`
pub store : Slice → ℕ → ℕ → Option Slice
store s i c = if ltb i s.len then some (record s { backing = set s.backing i c }) else none

infixl 5 ◌>>=◌
abbrev pub ◌>>=◌ : {A B : Type 0} → Option A → (A → Option B) → Option B
none >>= f = none
some a >>= f = f a

-- `make` zeroes the new array, and `copy` fills in the bytes of the old slice.
pub reserve_buffer : Slice → ℕ → Slice
reserve_buffer buf append_size =
    let new_size = buf.len + append_size in
    if ltb (length buf.backing) new_size
    then record { backing = contents buf ++ replicate (buf.len + append_size) 0; len = new_size }
    else record buf { len = new_size }

-- `buf[pos] = a; buf[pos+1] = b; pos += 2`
pub store_pair : Slice → ℕ → ℕ → ℕ → Option (Slice × ℕ)
unfolding store
store_pair buf pos a b = do s ← store buf pos a; t ← store s (pos + 1) b; some (t, pos + 2)

-- The `switch` over one byte.
pub escape_step : Slice → ℕ → ℕ → Option (Slice × ℕ)
escape_step buf pos c =
    if c == 0
    then store_pair buf pos b'\\' b'0'
    else if c == b'\n'
    then store_pair buf pos b'\\' b'n'
    else if c == b'\r'
    then store_pair buf pos b'\\' b'r'
    else if c == 0x1a
    then store_pair buf pos b'\\' b'Z'
    else if c == b'\''
    then store_pair buf pos b'\'' b'\''
    else if c == b'"'
    then store_pair buf pos b'\\' b'"'
    else if c == b'\\'
    then store_pair buf pos b'\\' b'\\'
    else store buf pos c >>= λ s. some (s, pos + 1)

-- The loop over the bytes of `v`.
pub escape_loop : Slice → ℕ → Bytes → Option (Slice × ℕ)
escape_loop buf pos [] = some (buf, pos)
escape_loop buf pos (c ∷ cs) = escape_step buf pos c >>= λ (s, p). escape_loop s p cs

-- The result is `buf[:pos]`.
pub escape_bytes_backslash : Slice → Bytes → Option Slice
unfolding escape_loop escape_step store_pair store reserve_buffer
escape_bytes_backslash buf v =
    escape_loop (reserve_buffer buf (length v * 2)) buf.len v >>= λ (s, pos).
    some (record s { len = pos })

pub escape_string_backslash : Slice → Bytes → Option Slice
unfolding escape_bytes_backslash
escape_string_backslash buf v = escape_bytes_backslash buf v

-- `fmt.Sprintf("'%s'", …)`
pub format_string : Bytes → Option Bytes
unfolding escape_bytes_backslash
format_string v =
    escape_bytes_backslash (full []) v >>= λ s. some (b'\'' ∷ (contents s ++ b'\'' ∷ []))

pub format_bytes : Bytes → Option Bytes
unfolding escape_bytes_backslash
format_bytes v =
    escape_bytes_backslash (full (codes "_binary'")) v >>= λ s. some (contents s ++ b'\'' ∷ [])
