-- ===== src/Strings.antt =====
-- The functions of Go's package strings that the driver calls, over lists of bytes.
-- Letters and spaces are those of ASCII: a text with other letters is outside of this model.
pub mod Split
pub mod Trim
use athenadriver.Base.{
  ℕ, zero, suc, ◌+◌, ◌-◌, Bool, true, false, ◌&&◌, ◌||◌, List, [], ◌∷◌, ◌++◌, map, Option, none,
  some, leb, ◌==◌, if◌then◌else◌, Bytes, codes,
}
use mathlib.Core.List.{reverse}

-- `strings.HasPrefix`
abbrev pub has_prefix : Bytes → Bytes → Bool
has_prefix s [] = true
has_prefix [] (p ∷ ps) = false
has_prefix (c ∷ s) (p ∷ ps) = c == p && has_prefix s ps

-- `strings.IndexByte`
unfoldable pub index_byte : Bytes → ℕ → Option ℕ
index_byte [] b = none
index_byte (c ∷ s) b =
    let rest = index_byte s b in
    if c == b then some 0 else elim rest [ none ↦ none | some i ↦ some (suc i) ]

-- `strings.Count` with one byte
abbrev pub count_byte : Bytes → ℕ → ℕ
count_byte [] b = 0
count_byte (c ∷ s) b = (if c == b then 1 else 0) + count_byte s b

-- One byte of `strings.ToLower`
unfoldable pub lower : ℕ → ℕ
lower c = if leb b'A' c && leb c b'Z' then c + 32 else c

unfoldable pub to_lower : Bytes → Bytes
unfolding lower
to_lower s = map lower s

-- `unicode.IsSpace`
abbrev pub is_space : ℕ → Bool
is_space c = c == b' ' || (leb 9 c && leb c 13)

abbrev pub trim_left : (ℕ → Bool) → Bytes → Bytes
trim_left p [] = []
trim_left p (c ∷ s) = if p c then trim_left p s else c ∷ s

abbrev pub trim_by : (ℕ → Bool) → Bytes → Bytes
trim_by p s = reverse (trim_left p (reverse (trim_left p s)))

-- `strings.TrimSpace`, and `strings.Trim(s, " ")`
unfoldable pub trim_space : Bytes → Bytes
trim_space s = trim_by is_space s

unfoldable pub trim_blanks : Bytes → Bytes
trim_blanks s = trim_by (λ c. c == b' ') s

-- `strings.Split` with a separator of one byte
unfoldable pub split : Bytes → ℕ → List Bytes
split [] b = [] ∷ []
split (c ∷ s) b =
    let rest = split s b in
    if c == b then [] ∷ rest else elim rest [ [] ↦ (c ∷ []) ∷ [] | p ∷ ps ↦ (c ∷ p) ∷ ps ]

-- `strings.TrimPrefix(s, "/")`
abbrev pub trim_slash : Bytes → Bytes
trim_slash [] = []
trim_slash (c ∷ s) = if c == b'/' then s else c ∷ s

-- `strings.Cut` at one byte, without the flag.
unfoldable pub cut : Bytes → ℕ → Bytes × Bytes
cut [] b = ([], [])
cut (c ∷ s) b = let rest = cut s b in if c == b then ([], s) else (c ∷ rest.0, rest.1)
