-- ===== src/Strings/Split.antt =====
-- Cutting a text that was joined gives its parts back.
use athenadriver.Base.{
  ℕ, [], ◌∷◌, ◌++◌, some, Bytes, length, ◌≡◌, ◌≢◌, refl, ap, ◌∙◌, arith, ==_false,
}
use athenadriver.Strings.{split, cut, index_byte}

-- The byte does not stand in the text.
abbrev pub Lacks : ℕ → Bytes → Type 0
Lacks b [] = Unit
Lacks b (c ∷ s) = (c ≢ b) × Lacks b s

pub Lacks-append : (b : ℕ) (s t : Bytes) → Lacks b s → Lacks b t → Lacks b (s ++ t)
Lacks-append b [] t h k = k
Lacks-append b (c ∷ s) t h k = (h.0, Lacks-append b s t h.1 k)

pub split-Lacks : (s : Bytes) (b : ℕ) → Lacks b s → split s b ≡ s ∷ []
unfolding split
split-Lacks [] b h = refl
split-Lacks (c ∷ s) b h = rw (==_false c b h.0) (rw (split-Lacks s b h.1))

pub split-append : (s rest : Bytes) (b : ℕ) → Lacks b s → split (s ++ b ∷ rest) b ≡ s ∷ split rest b
unfolding split
split-append [] rest b h = ground arith
split-append (c ∷ s) rest b h = rw (==_false c b h.0) (rw (split-append s rest b h.1))

pub split-ne-nil : (s : Bytes) (b : ℕ) → split s b ≢ []
unfolding split
split-ne-nil [] b h = cc
split-ne-nil (c ∷ s) b h = ground arith

-- A part behind the last separator is the last part.
pub split-snoc :
    (text part : Bytes) (b : ℕ)
    → Lacks b part
    → split (text ++ b ∷ part) b ≡ split text b ++ part ∷ []
unfolding split
split-snoc [] part b h = split-append [] part b tt ∙ ap (λ r. [] ∷ r) (split-Lacks part b h)
split-snoc (c ∷ text) part b h = ground (arith, split-snoc text part b h, split-ne-nil text b)

pub index_byte-append :
    (s rest : Bytes) (b : ℕ) → Lacks b s → index_byte (s ++ b ∷ rest) b ≡ some (length s)
unfolding index_byte
index_byte-append [] rest b h = ground arith
index_byte-append (c ∷ s) rest b h = rw (==_false c b h.0) (rw (index_byte-append s rest b h.1))

pub cut-append : (s t : Bytes) (b : ℕ) → Lacks b s → cut (s ++ b ∷ t) b ≡ (s, t)
unfolding cut
cut-append [] t b h = ground arith
cut-append (c ∷ s) t b h = rw (==_false c b h.0) (rw (cut-append s t b h.1))

pub cut-Lacks : (s : Bytes) (b : ℕ) → Lacks b s → cut s b ≡ (s, [])
unfolding cut
cut-Lacks [] b h = refl
cut-Lacks (c ∷ s) b h = rw (==_false c b h.0) (rw (cut-Lacks s b h.1))
