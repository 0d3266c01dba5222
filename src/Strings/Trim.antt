-- ===== src/Strings/Trim.antt =====
-- Trimming a text that has nothing to trim at its end, behind a text that has nothing at its start.
use athenadriver.Base.{
  ℕ, Bool, true, false, not, [], ◌∷◌, ◌++◌, Bytes, ◌≡◌, refl, sym, ap, ◌∙◌, arith,
}
use athenadriver.Strings.{trim_left, trim_by}
use mathlib.Core.List.{reverse, reverse-append, reverse-reverse}

abbrev pub is_clean : (ℕ → Bool) → Bytes → Bool
is_clean p [] = false
is_clean p (c ∷ s) = not (p c)

trim_left-append :
    (p : ℕ → Bool) (s r : Bytes) → is_clean p s ≡ true → trim_left p (s ++ r) ≡ s ++ r
trim_left-append p [] r h = cc
trim_left-append p (c ∷ s) r h = ground arith

pub trim_by-append :
    (p : ℕ → Bool) (front s : Bytes)
    → trim_left p (front ++ s) ≡ front ++ s
    → is_clean p (reverse s) ≡ true
    → trim_by p (front ++ s) ≡ front ++ s
trim_by-append p front s h k =
    ap (λ t. reverse (trim_left p (reverse t))) h
    ∙ ap (λ t. reverse (trim_left p t)) (reverse-append front s)
    ∙ ap reverse (trim_left-append p (reverse s) (reverse front) k ∙ sym (reverse-append front s))
    ∙ reverse-reverse (front ++ s)

pub trim_left-clean : (p : ℕ → Bool) (s : Bytes) → is_clean p s ≡ true → trim_left p s ≡ s
trim_left-clean p [] h = refl
trim_left-clean p (c ∷ s) h = ground arith
