-- ===== src/Rows/Convert/Laws.antt =====
-- The numbers and the times that `athenaTypeToGoType` of go/rows.go reads.
use athenadriver.Base.{
  ℕ, true, List, [], ◌∷◌, ◌++◌, if◌then◌else◌, Bytes, codes, ◌≡◌, ◌≢◌, refl, ap, ◌∙◌, Bool-cases,
  inl, inr,
}
use athenadriver.Decimal.RoundTrip.{parse_int-format_int}
use athenadriver.Decimal.{ℤ, parse_int, format_int, in_range, check_range}
use athenadriver.Errors.{Outcome, returned, failed, panics, message, ◌>>=◌}
use athenadriver.GoTime.{Time}
use athenadriver.Rows.Convert.{
  GoValue, int8, int16, int32, int64, Library, convert_value, scan_time, parsed, last_part, several,
  by_last,
}
use athenadriver.Strings.{split}
use athenadriver.Strings.Split.{split-snoc, split-ne-nil}

-- The number, if it fits into `w` bits and a sign, and otherwise the error of the parse.
abbrev pub fitting : ℕ → (ℤ → GoValue) → ℤ → Outcome GoValue
fitting w f z = if in_range w z then returned (f z) else failed (message (codes "parse error"))

parsed-check_range :
    (w : ℕ) (f : ℤ → GoValue) (z : ℤ)
    → (parsed (check_range w z) >>= λ y. returned (f y)) ≡ fitting w f z
parsed-check_range w f z = elim (Bool-cases (in_range w z)) [ inl e ↦ rw e | inr e ↦ rw e ]

parsed-format_int :
    (w : ℕ) (f : ℤ → GoValue) (z : ℤ)
    → (parsed (parse_int w (format_int z)) >>= λ y. returned (f y)) ≡ fitting w f z
parsed-format_int w f z =
    ap (λ o. parsed o >>= λ y. returned (f y)) (parse_int-format_int w z) ∙ parsed-check_range w f z

several-snoc : (ps : List Bytes) (p q : Bytes) → several (p ∷ (ps ++ q ∷ [])) ≡ true
several-snoc [] p q = refl
several-snoc (r ∷ ps) p q = refl

last_part-snoc : (ps : List Bytes) (q : Bytes) → last_part (ps ++ q ∷ []) ≡ q
last_part-snoc [] q = refl
last_part-snoc (p ∷ []) q = refl
last_part-snoc (p ∷ r ∷ ps) q = last_part-snoc (r ∷ ps) q

module _ (library : Library) where
  -- The text of an integer in a column of an integer type becomes that integer, in Go's type of
  -- the column's width, if it fits, and otherwise it is an error: no width wraps around.
  pub convert_value-format_int :
      (z : ℤ)
      → (convert_value library (codes "tinyint") (format_int z) ≡ fitting 7 int8 z)
        × (convert_value library (codes "smallint") (format_int z) ≡ fitting 15 int16 z)
        × (convert_value library (codes "integer") (format_int z) ≡ fitting 31 int32 z)
        × (convert_value library (codes "bigint") (format_int z) ≡ fitting 63 int64 z)
  unfolding convert_value
  convert_value-format_int z = (
    parsed-format_int 7 int8 z,
    parsed-format_int 15 int16 z,
    parsed-format_int 31 int32 z,
    parsed-format_int 63 int64 z,
  )

  split_panics :
      (v : Bytes) (ps : List Bytes) (rest : Outcome Time)
      → ps ≢ []
      → (if several (ps ++ [] ∷ []) then by_last library v (last_part (ps ++ [] ∷ [])) else rest)
        ≡ panics
  split_panics v [] rest h = absurd (h refl)
  split_panics v (p ∷ ps) rest h = rw (several-snoc ps p [], last_part-snoc (p ∷ ps) [])

  -- A text of a date or time column that ends in a space makes `scanTime` read the first byte of
  -- an empty part, and it panics.
  pub scan_time_panics : (v : Bytes) → scan_time library (v ++ b' ' ∷ []) ≡ panics
  unfolding scan_time
  scan_time_panics v =
      rw (split-snoc v [] b' ' tt)
        (split_panics (v ++ b' ' ∷ []) (split v b' ') _ (split-ne-nil v b' '))
