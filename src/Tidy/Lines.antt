-- ===== src/Tidy/Lines.antt =====
-- What the pattern of one-line comments matches: the rest of a line.
use athenadriver.Base.{
  ℕ, zero, suc, ◌+◌, Bool, true, false, ◌&&◌, [], ◌∷◌, ◌==◌, ==_iff, ltb, drop, Bytes, ◌≡◌, refl,
  sym, ap, ◌∙◌, arith, ◌⊎◌, inl, inr, Bool-cases,
}
use athenadriver.Tidy.{is_white, behind, count_while, not_newline, dashes, one_line_comment}
use mathlib.Core.Path.{subst}

-- The end of the text or of a line.
abbrev pub at_end : Bytes → Bool
at_end [] = true
at_end (c ∷ s) = c == 10

line_end : (t : Bytes) → at_end (drop (count_while not_newline t) t) ≡ true
line_end [] = refl
line_end (c ∷ t) = elim (Bool-cases (c == 10)) [ inl e ↦ rw e e | inr e ↦ rw e (line_end t) ]

pub dashes_end : (n : ℕ) (s : Bytes) → at_end s ≡ true → dashes n s ≡ 0
dashes_end n [] h = refl
dashes_end n (c ∷ s) h = rw ((==_iff c 10).0 h) refl

pub other_front : (n c : ℕ) (s : Bytes) → (c == b'-') ≡ false → dashes n (c ∷ s) ≡ 0
other_front n c s h = rw h refl

pub other_second : (n c d : ℕ) (s : Bytes) → (d == b'-') ≡ false → dashes n (c ∷ d ∷ s) ≡ 0
other_second n c d s h = elim (Bool-cases (c == b'-')) [
  | inl e ↦ rw (e, h) refl
  | inr e ↦ rw e refl
]

-- What a text is that has a comment at its front.
pub record IsComment (n : ℕ) (s : Bytes) : Type 0 where
  pub line : Bytes
  pub opens : s ≡ b'-' ∷ b'-' ∷ line
  pub size : ℕ
  pub counts : count_while not_newline line ≡ suc size
  pub matches : dashes n s ≡ n + 2 + suc size

dashed :
    (n : ℕ) (t : Bytes) (k : ℕ)
    → count_while not_newline t ≡ k
    → (dashes n (b'-' ∷ b'-' ∷ t) ≡ 0) ⊎ IsComment n (b'-' ∷ b'-' ∷ t)
dashed n t zero h = inl (ap (behind (n + 2)) h)
dashed n t (suc k) h =
    inr (record { line = t; opens = refl; size = k; counts = h; matches = ap (behind (n + 2)) h })

pub dashes_cases : (n : ℕ) (s : Bytes) → (dashes n s ≡ 0) ⊎ IsComment n s
dashes_cases n [] = inl refl
dashes_cases n (c ∷ []) = elim (Bool-cases (c == b'-')) [
  | inl e ↦ inl (rw e refl)
  | inr e ↦ inl (rw e refl)
]
dashes_cases n (c ∷ d ∷ t) = elim (Bool-cases (c == b'-')) [
  | inl e ↦ elim (Bool-cases (d == b'-')) [
    | inl f ↦
        subst (λ a. (dashes n (a ∷ d ∷ t) ≡ 0) ⊎ IsComment n (a ∷ d ∷ t))
          (sym ((==_iff c b'-').0 e))
          (subst (λ b. (dashes n (b'-' ∷ b ∷ t) ≡ 0) ⊎ IsComment n (b'-' ∷ b ∷ t))
            (sym ((==_iff d b'-').0 f)) (dashed n t (count_while not_newline t) refl))
    | inr f ↦ inl (other_second n c d t f)
  ]
  | inr e ↦ inl (other_front n c (d ∷ t) e)
]

-- A match reaches to the end of its line.
comment_end :
    (n k : ℕ) (s : Bytes) (h : IsComment n s)
    → k ≡ suc (suc (suc h.size))
    → at_end (drop k s) ≡ true
comment_end n k s h e =
    ap (λ j. at_end (drop j s)) e
    ∙ ap (λ t. at_end (drop (suc (suc (suc h.size))) t)) h.opens
    ∙ ap (λ j. at_end (drop j h.line)) (sym h.counts)
    ∙ line_end h.line

first_end : (c k : ℕ) (s : Bytes) → dashes 0 (c ∷ s) ≡ suc k → at_end (drop k s) ≡ true
first_end c k s e = elim (dashes_cases 0 (c ∷ s)) [
  | inl z ↦ absurd (omega (arith, z, e))
  | inr h ↦ comment_end 0 (suc k) (c ∷ s) h (omega (arith, h.matches, e))
]

later_end : (k : ℕ) (s : Bytes) → dashes 1 s ≡ suc k → at_end (drop k s) ≡ true
later_end k s e = elim (dashes_cases 1 s) [
  | inl z ↦ absurd (omega (arith, z, e))
  | inr h ↦ comment_end 1 k s h (omega (arith, h.matches, e))
]

pub matched_end :
    (first : Bool) (c k : ℕ) (s : Bytes)
    → one_line_comment first (c ∷ s) ≡ suc k
    → at_end (drop k s) ≡ true
unfolding one_line_comment
matched_end first c k s h = elim (Bool-cases (first && ltb 0 (dashes 0 (c ∷ s)))) [
  | inl e ↦ first_end c k s (simp e at h)
  | inr e ↦ elim (Bool-cases (is_white c)) [
    | inl w ↦ later_end k s (simp (e, w) at h)
    | inr w ↦ absurd (omega (arith, simp (e, w) at h))
  ]
]
