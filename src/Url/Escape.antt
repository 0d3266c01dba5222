-- ===== src/Url/Escape.antt =====
-- `url.QueryEscape` and `url.QueryUnescape` of Go's package net/url, which the texts of
-- configurations go through.
use athenadriver.Base.{
  ℕ, ◌+◌, ◌-◌, ◌*◌, ◌/◌, ◌%◌, ◌<◌, Bool, true, false, ◌&&◌, ◌||◌, [], ◌∷◌, ◌++◌, Option, none, some,
  ltb, leb, ◌==◌, if◌then◌else◌, Bytes, ◌≡◌, ◌≢◌, refl, ap, ◌∙◌, arith, ==_false, Bool-cases, inl,
  inr,
}

-- The bytes that stand for themselves.
unfoldable pub is_unreserved : ℕ → Bool
is_unreserved c =
    (leb b'a' c && leb c b'z')
    || (leb b'A' c && leb c b'Z')
    || (leb b'0' c && leb c b'9')
    || c == b'-'
    || c == b'_'
    || c == b'.'
    || c == b'~'

unfoldable pub hex_digit : ℕ → ℕ
hex_digit n = if ltb n 10 then b'0' + n else 55 + n

unfoldable pub escape_byte : ℕ → Bytes
unfolding is_unreserved hex_digit
escape_byte c =
    if is_unreserved c
    then c ∷ []
    else if c == b' '
    then b'+' ∷ []
    else b'%' ∷ hex_digit (c / 16) ∷ hex_digit (c % 16) ∷ []

unfoldable pub query_escape : Bytes → Bytes
unfolding escape_byte
query_escape [] = []
query_escape (c ∷ s) = escape_byte c ++ query_escape s

unfoldable pub unhex : ℕ → Option ℕ
unhex c =
    if leb b'0' c && leb c b'9'
    then some (c - b'0')
    else if leb b'a' c && leb c b'f'
    then some (c - b'a' + 10)
    else if leb b'A' c && leb c b'F'
    then some (c - b'A' + 10)
    else none

abbrev pub cons_text : ℕ → Option Bytes → Option Bytes
cons_text c none = none
cons_text c (some s) = some (c ∷ s)

abbrev pub cons_hex : Option ℕ → Option ℕ → Option Bytes → Option Bytes
cons_hex (some h) (some l) s = cons_text (h * 16 + l) s
cons_hex _ _ s = none

abbrev plus_space : ℕ → ℕ
plus_space c = if c == b'+' then b' ' else c

-- No text stands for the error of a percent sign without two hexadecimal digits.
unfoldable pub query_unescape : Bytes → Option Bytes
unfolding unhex
query_unescape [] = some []
query_unescape (a ∷ []) = if a == b'%' then none else some (plus_space a ∷ [])
query_unescape (a ∷ b ∷ []) =
    let rest = query_unescape (b ∷ []) in if a == b'%' then none else cons_text (plus_space a) rest
query_unescape (a ∷ b ∷ c ∷ s) = elim (a == b'%') [
  | true ↦ cons_hex (unhex b) (unhex c) (query_unescape s)
  | false ↦ cons_text (plus_space a) (query_unescape (b ∷ c ∷ s))
]

-- A byte of a Go string is below 256.
abbrev pub AllBytes : Bytes → Type 0
AllBytes [] = Unit
AllBytes (c ∷ s) = (c < 256) × AllBytes s

unescape_plain :
    (c : ℕ) (s : Bytes)
    → c ≢ b'%'
    → query_unescape (c ∷ s) ≡ cons_text (plus_space c) (query_unescape s)
unfolding query_unescape
unescape_plain c [] h = rw (==_false c b'%' h)
unescape_plain c (b ∷ []) h = rw (==_false c b'%' h)
unescape_plain c (b ∷ d ∷ s) h = rw (==_false c b'%' h, query_unescape)

unhex-hex_digit : (n : ℕ) → n < 16 → unhex (hex_digit n) ≡ some n
unfolding unhex hex_digit
unhex-hex_digit n h = ground arith

unescape_hex :
    (c : ℕ) (s : Bytes)
    → c < 256
    → query_unescape (b'%' ∷ hex_digit (c / 16) ∷ hex_digit (c % 16) ∷ s)
      ≡ cons_text c (query_unescape s)
unescape_hex c s h =
    unfold query_unescape in
    rw (unhex-hex_digit (c / 16) (omega arith), unhex-hex_digit (c % 16) (omega arith))
      (ap (λ b. cons_text b (query_unescape s)) (omega arith))

unescape-escape_byte :
    (c : ℕ) (s : Bytes)
    → c < 256
    → query_unescape (escape_byte c ++ s) ≡ cons_text c (query_unescape s)
unfolding escape_byte
unescape-escape_byte c s h = elim (Bool-cases (is_unreserved c)) [
  | inl e ↦ rw e (
      unescape_plain c s (unfold is_unreserved in ground arith)
      ∙ ap (λ b. cons_text b (query_unescape s)) (unfold is_unreserved in ground arith))
  | inr e ↦ elim (Bool-cases (c == b' ')) [
    | inl b ↦
        rw (e, b)
          (unescape_plain b'+' s (omega arith)
            ∙ ap (λ b. cons_text b (query_unescape s)) (ground arith))
    | inr b ↦ rw (e, b) (unescape_hex c s h)
  ]
]

pub query_unescape-query_escape :
    (s : Bytes) → AllBytes s → query_unescape (query_escape s) ≡ some s
unfolding query_escape
query_unescape-query_escape [] h = unfold query_unescape in refl
query_unescape-query_escape (c ∷ s) h =
    unescape-escape_byte c (query_escape s) h.0
    ∙ ap (cons_text c) (query_unescape-query_escape s h.1)
