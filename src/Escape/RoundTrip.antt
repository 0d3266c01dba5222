-- ===== src/Escape/RoundTrip.antt =====
-- The escaping loses nothing: a reader of the escapes gets the argument back.
use athenadriver.Base.{
  ℕ, [], ◌∷◌, Option, none, some, ◌==◌, if◌then◌else◌, Bytes, ◌≡◌, ◌≢◌, refl, ap, ◌∙◌, arith, ◌⊎◌,
  inl, inr, Bool-cases, ◌&&◌,
}
use athenadriver.Escape.{Slice, contents, full, escape_bytes_backslash}
use athenadriver.Escape.Buffer.{escaped, escape_text, escape_bytes_backslash-append}

-- The byte that a pair of bytes stands for, if it is an escape.
decode : ℕ → ℕ → Option ℕ
decode c d =
    if c == b'\\'
    then if d == b'0'
      then some 0
      else if d == b'n'
      then some b'\n'
      else if d == b'r'
      then some b'\r'
      else if d == b'Z'
      then some 0x1a
      else if d == b'"'
      then some b'"'
      else if d == b'\\'
      then some b'\\'
      else none
    else if c == b'\'' && d == b'\''
    then some b'\''
    else none

-- An independent reader of escaped text.
pub unescape : Bytes → Bytes
unescape [] = []
unescape (c ∷ []) = c ∷ []
unescape (c ∷ d ∷ cs) = elim (decode c d) [
  | none ↦ c ∷ unescape (d ∷ cs)
  | some b ↦ b ∷ unescape cs
]

abbrev DecodesPair : ℕ → Type 0
DecodesPair c = (a : ℕ) × (b : ℕ) × (escaped c ≡ a ∷ b ∷ []) × (decode a b ≡ some c)

abbrev DecodesOne : ℕ → Type 0
DecodesOne c = (escaped c ≡ c ∷ []) × (c ≢ b'\\') × (c ≢ b'\'')

-- What is written for a byte reads back as the byte.
escaped_cases : (c : ℕ) → DecodesPair c ⊎ DecodesOne c
unfolding escaped decode
escaped_cases c = elim (Bool-cases (c == 0)) [
  | inl e ↦ inl (b'\\', b'0', rw (e), ground arith)
  | inr e0 ↦ elim (Bool-cases (c == b'\n')) [
    | inl e ↦ inl (b'\\', b'n', rw (e0, e), ground arith)
    | inr e1 ↦ elim (Bool-cases (c == b'\r')) [
      | inl e ↦ inl (b'\\', b'r', rw (e0, e1, e), ground arith)
      | inr e2 ↦ elim (Bool-cases (c == 0x1a)) [
        | inl e ↦ inl (b'\\', b'Z', rw (e0, e1, e2, e), ground arith)
        | inr e3 ↦ elim (Bool-cases (c == b'\'')) [
          | inl e ↦ inl (b'\'', b'\'', rw (e0, e1, e2, e3, e), ground arith)
          | inr e4 ↦ elim (Bool-cases (c == b'"')) [
            | inl e ↦ inl (b'\\', b'"', rw (e0, e1, e2, e3, e4, e), ground arith)
            | inr e5 ↦ elim (Bool-cases (c == b'\\')) [
              | inl e ↦ inl (b'\\', b'\\', rw (e0, e1, e2, e3, e4, e5, e), ground arith)
              | inr e6 ↦ inr (rw (e0, e1, e2, e3, e4, e5, e6), ground arith, ground arith)
            ]
          ]
        ]
      ]
    ]
  ]
]

unescape_pair :
    (a b c : ℕ) (rest : Bytes) → decode a b ≡ some c → unescape (a ∷ b ∷ rest) ≡ c ∷ unescape rest
unfolding unescape
unescape_pair a b c rest e = rw (e, unescape)

decode_plain : (c d : ℕ) → c ≢ b'\\' → c ≢ b'\'' → decode c d ≡ none
unfolding decode
decode_plain c d h k = ground arith

unescape_plain :
    (c : ℕ) (rest : Bytes) → c ≢ b'\\' → c ≢ b'\'' → unescape (c ∷ rest) ≡ c ∷ unescape rest
unfolding unescape
unescape_plain c [] h k = refl
unescape_plain c (d ∷ rest) h k = rw (decode_plain c d h k, unescape)

pub unescape-escape_text : (v : Bytes) → unescape (escape_text v) ≡ v
unescape-escape_text [] = unfold unescape in refl
unescape-escape_text (c ∷ cs) = elim (escaped_cases c) [
  | inl (a, b, w, d) ↦
      rw w (unescape_pair a b c (escape_text cs) d ∙ ap (◌∷◌ c) (unescape-escape_text cs))
  | inr (w, h, k) ↦
      rw w (unescape_plain c (escape_text cs) h k ∙ ap (◌∷◌ c) (unescape-escape_text cs))
]

-- Whatever bytes `v` holds, `escapeBytesBackslash` with an empty buffer succeeds, and reading
-- the escapes of its result gives exactly `v`.
unescape-escape_bytes_backslash :
    (v : Bytes)
    → (s : Slice) × (escape_bytes_backslash (full []) v ≡ some s) × (unescape (contents s) ≡ v)
unescape-escape_bytes_backslash v =
    let (s, e, c, ok, short) = escape_bytes_backslash-append (full []) v (omega arith) in
    (s, e, ap unescape c ∙ unescape-escape_text v)
