-- ===== src/Escape/Literal.antt =====
-- A formatted argument is one SQL string literal, and cannot end early.
use mathlib.Core.List.{append_assoc}
use athenadriver.Base.{
  ℕ, true, false, [], ◌∷◌, ◌++◌, Option, none, some, ◌==◌, if◌then◌else◌, Bytes, ◌≡◌, ◌≢◌, refl, ap,
  ◌∙◌, arith, ◌⊎◌, inl, inr, Bool-cases, ==_false, ==_iff,
}
use athenadriver.Escape.{full, format_string}
use athenadriver.Escape.Buffer.{escaped, escape_text, escape_bytes_backslash-append}

abbrev prepend : ℕ → Option (Bytes × Bytes) → Option (Bytes × Bytes)
prepend c none = none
prepend c (some (b, rest)) = some (c ∷ b, rest)

-- The SQL rule, behind the opening quote: a quote ends the literal, unless a second one follows,
-- which makes the two stand for one. The result is the body and what follows the literal.
pub scan_literal : Bytes → Option (Bytes × Bytes)
scan_literal [] = none
scan_literal (c ∷ []) = if c == b'\'' then some ([], []) else none
scan_literal (c ∷ d ∷ cs) = elim (c == b'\'') [
  | true ↦ elim (d == b'\'') [ true ↦ prepend b'\'' (scan_literal cs) | false ↦ some ([], d ∷ cs) ]
  | false ↦ prepend c (scan_literal (d ∷ cs))
]

pub read_literal : Bytes → Option (Bytes × Bytes)
unfolding scan_literal
read_literal [] = none
read_literal (c ∷ cs) = if c == b'\'' then scan_literal cs else none

-- What stands between the quotes, with the doubled quotes taken as one.
abbrev pub literal_body : Bytes → Bytes
literal_body [] = []
literal_body (c ∷ cs) = (if c == b'\'' then b'\'' ∷ [] else escaped c) ++ literal_body cs

-- What follows the literal does not begin with a quote.
abbrev pub NoQuote : Bytes → Type 0
NoQuote [] = Unit
NoQuote (c ∷ cs) = c ≢ b'\''

scan_plain : (c : ℕ) (cs : Bytes) → c ≢ b'\'' → scan_literal (c ∷ cs) ≡ prepend c (scan_literal cs)
unfolding scan_literal
scan_plain c [] h = rw (==_false c b'\'' h, scan_literal)
scan_plain c (d ∷ cs) h = rw (==_false c b'\'' h, scan_literal)

scan_end : (rest : Bytes) → NoQuote rest → scan_literal (b'\'' ∷ rest) ≡ some ([], rest)
unfolding scan_literal
scan_end [] h = refl
scan_end (d ∷ rest) h = rw (==_false d b'\'' h, scan_literal)

abbrev PlainPair : ℕ → Type 0
PlainPair c = (b : ℕ) × (escaped c ≡ b'\\' ∷ b ∷ []) × (b ≢ b'\'')

-- No escape of another byte holds a quote.
escaped_quotes : (c : ℕ) → c ≢ b'\'' → PlainPair c ⊎ (escaped c ≡ c ∷ [])
unfolding escaped
escaped_quotes c h = elim (Bool-cases (c == 0)) [
  | inl e ↦ inl (b'0', rw (e), omega arith)
  | inr e0 ↦ elim (Bool-cases (c == b'\n')) [
    | inl e ↦ inl (b'n', rw (e0, e), omega arith)
    | inr e1 ↦ elim (Bool-cases (c == b'\r')) [
      | inl e ↦ inl (b'r', rw (e0, e1, e), omega arith)
      | inr e2 ↦ elim (Bool-cases (c == 0x1a)) [
        | inl e ↦ inl (b'Z', rw (e0, e1, e2, e), omega arith)
        | inr e3 ↦ elim (Bool-cases (c == b'\'')) [
          | inl e ↦ absurd (h (ground arith))
          | inr e4 ↦ elim (Bool-cases (c == b'"')) [
            | inl e ↦ inl (b'"', rw (e0, e1, e2, e3, e4, e), omega arith)
            | inr e5 ↦ elim (Bool-cases (c == b'\\')) [
              | inl e ↦ inl (b'\\', rw (e0, e1, e2, e3, e4, e5, e), omega arith)
              | inr e6 ↦ inr (rw (e0, e1, e2, e3, e4, e5, e6))
            ]
          ]
        ]
      ]
    ]
  ]
]

escaped_quote : (c : ℕ) → (c == b'\'') ≡ true → escaped c ≡ b'\'' ∷ b'\'' ∷ []
unfolding escaped
escaped_quote c e = rw ((==_iff c b'\'').0 e)

scan_doubled : (cs : Bytes) → scan_literal (b'\'' ∷ b'\'' ∷ cs) ≡ prepend b'\'' (scan_literal cs)
unfolding scan_literal
scan_doubled cs = refl

scan_body :
    (v rest : Bytes)
    → NoQuote rest
    → scan_literal (escape_text v ++ b'\'' ∷ rest) ≡ some (literal_body v, rest)
scan_body [] rest h = scan_end rest h
scan_body (c ∷ cs) rest h = elim (Bool-cases (c == b'\'')) [
  | inl e ↦ rw (e, escaped_quote c e) (scan_doubled _ ∙ ap (prepend b'\'') (scan_body cs rest h))
  | inr e ↦ elim (escaped_quotes c (ground arith)) [
    | inl (b, w, ne) ↦
        rw (e, w)
          (scan_plain b'\\' _ (omega arith)
            ∙ ap (prepend b'\\') (scan_plain b _ ne ∙ ap (prepend b) (scan_body cs rest h)))
    | inr w ↦ rw (e, w) (scan_plain c _ (ground arith) ∙ ap (prepend c) (scan_body cs rest h))
  ]
]

-- Whatever bytes `v` holds, and whatever follows that does not begin with a quote, the text of
-- `FormatString(v)` is a single SQL string literal: it is read up to its own closing quote, and
-- all that follows is left.
pub read_literal-format_string :
    (v rest : Bytes)
    → NoQuote rest
    → (lit : Bytes) × (format_string v ≡ some lit)
      × (read_literal (lit ++ rest) ≡ some (literal_body v, rest))
unfolding format_string read_literal
read_literal-format_string v rest h =
    let (s, e, c, ok, short) = escape_bytes_backslash-append (full []) v (omega arith) in
    (b'\'' ∷ (escape_text v ++ b'\'' ∷ []), rw e (rw c), rw append_assoc (scan_body v rest h))
