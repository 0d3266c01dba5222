-- ===== src/Tidy/Comments.antt =====
-- One-line comments are gone where they were removed.
use athenadriver.Base.{
  ℕ, zero, suc, ◌+◌, Bool, true, false, [], ◌∷◌, ◌==◌, ==_iff, ltb, drop, Bytes, ◌≡◌, refl, sym, ap,
  ◌∙◌, arith, ◌⊎◌, inl, inr, Bool-cases, if◌then◌else◌,
}
use athenadriver.Tidy.{
  is_white, behind, after_match, count_while, not_newline, dashes, white_dashes, one_line_comment,
  remove_all, multi_line_comment, strip_comments,
}
use athenadriver.Tidy.Lines.{
  at_end, dashes_end, other_front, other_second, dashes_cases, matched_end,
}
use mathlib.Core.Path.{subst}

-- A matcher that matches nowhere in a text.
abbrev pub HasNone : (Bool → Bytes → ℕ) → Bool → Bytes → Type 0
HasNone match' first [] = Unit
HasNone match' first (c ∷ s) = (match' first (c ∷ s) ≡ 0) × HasNone match' false s

abbrev remaining : ℕ → Bytes → Bytes
remaining skip s = remove_all one_line_comment false skip s

record IsKept (first : Bool) (c : ℕ) (s : Bytes) : Type 0 where
  pub unmatched : one_line_comment first (c ∷ s) ≡ 0
  pub keeps : remove_all one_line_comment first 0 (c ∷ s) ≡ c ∷ remaining 0 s

record IsDropped (first : Bool) (c : ℕ) (s : Bytes) : Type 0 where
  pub more : ℕ
  pub ends : at_end (drop more s) ≡ true
  pub drops : remove_all one_line_comment first 0 (c ∷ s) ≡ remaining more s

step_at :
    (first : Bool) (c : ℕ) (s : Bytes) (n : ℕ)
    → one_line_comment first (c ∷ s) ≡ n
    → IsKept first c s ⊎ IsDropped first c s
unfolding remove_all
step_at first c s zero e = inl (record {
  unmatched = e;
  keeps = ap (λ n. after_match n (c ∷ remaining 0 s) (λ m. remaining m s)) e;
})
step_at first c s (suc k) e = inr (record {
  more = k;
  ends = matched_end first c k s e;
  drops = ap (λ n. after_match n (c ∷ remaining 0 s) (λ m. remaining m s)) e;
})

step_cases : (first : Bool) (c : ℕ) (s : Bytes) → IsKept first c s ⊎ IsDropped first c s
step_cases first c s = step_at first c s (one_line_comment first (c ∷ s)) refl

-- What is left of the rest of a line ends at once.
remaining-at_end :
    (skip : ℕ) (s : Bytes) → at_end (drop skip s) ≡ true → at_end (remaining skip s) ≡ true
unfolding remove_all
remaining-at_end zero [] h = refl
remaining-at_end (suc skip) [] h = refl
remaining-at_end (suc skip) (c ∷ s) h = remaining-at_end skip s h
remaining-at_end zero (c ∷ s) h = elim (step_cases false c s) [
  | inl k ↦ rw (k.keeps) h
  | inr d ↦ rw (d.drops) (remaining-at_end d.more s d.ends)
]

-- What is left of a text ends at once, or starts with the text's first byte.
front_cases :
    (s : Bytes)
    → (at_end (remaining 0 s) ≡ true)
      ⊎ ((c : ℕ) × (t : Bytes) × (s ≡ c ∷ t) × (remaining 0 s ≡ c ∷ remaining 0 t))
unfolding remove_all
front_cases [] = inl refl
front_cases (c ∷ s) = elim (step_cases false c s) [
  | inl k ↦ inr (c, s, refl, k.keeps)
  | inr d ↦ inl (rw (d.drops) (remaining-at_end d.more s d.ends))
]

end_count : (t : Bytes) → at_end t ≡ true → count_while not_newline t ≡ 0
end_count [] h = refl
end_count (c ∷ t) h = rw h refl

count_end : (t : Bytes) → count_while not_newline t ≡ 0 → at_end t ≡ true
count_end [] h = refl
count_end (c ∷ t) h = elim (Bool-cases (c == 10)) [
  | inl e ↦ e
  | inr e ↦ absurd (omega (arith, simp e at h))
]

behind_zero : (n k : ℕ) → behind n k ≡ 0 → k ≡ 0
behind_zero n zero h = refl
behind_zero n (suc k) h = absurd (omega (arith, h))

-- No comment appears in front of what is left.
dashes_second :
    (n : ℕ) (t : Bytes)
    → dashes n (b'-' ∷ b'-' ∷ t) ≡ 0
    → dashes n (b'-' ∷ b'-' ∷ remaining 0 t) ≡ 0
dashes_second n t h = ap (behind (n + 2)) (
    end_count (remaining 0 t)
      (remaining-at_end 0 t (count_end t (behind_zero (n + 2) (count_while not_newline t) h))))

second_end : (n : ℕ) (r : Bytes) → at_end r ≡ true → dashes n (b'-' ∷ r) ≡ 0
second_end n [] h = refl
second_end n (d ∷ r) h = other_second n b'-' d r (rw ((==_iff d 10).0 h) refl)

second_kept :
    (n d : ℕ) (t : Bytes) → dashes n (b'-' ∷ d ∷ t) ≡ 0 → dashes n (b'-' ∷ d ∷ remaining 0 t) ≡ 0
second_kept n d t h = elim (Bool-cases (d == b'-')) [
  | inl e ↦
      subst (λ a. dashes n (b'-' ∷ a ∷ t) ≡ 0 → dashes n (b'-' ∷ a ∷ remaining 0 t) ≡ 0)
        (sym ((==_iff d b'-').0 e)) (dashes_second n t) h
  | inr e ↦ other_second n b'-' d (remaining 0 t) e
]

dashes_first : (n : ℕ) (s : Bytes) → dashes n (b'-' ∷ s) ≡ 0 → dashes n (b'-' ∷ remaining 0 s) ≡ 0
dashes_first n s h = elim (front_cases s) [
  | inl e ↦ second_end n (remaining 0 s) e
  | inr (d, t, p, q) ↦
      ap (λ r. dashes n (b'-' ∷ r)) q
      ∙ second_kept n d t (sym (ap (λ r. dashes n (b'-' ∷ r)) p) ∙ h)
]

dashes_front : (n c : ℕ) (s : Bytes) → dashes n (c ∷ s) ≡ 0 → dashes n (c ∷ remaining 0 s) ≡ 0
dashes_front n c s h = elim (Bool-cases (c == b'-')) [
  | inl e ↦
      subst (λ a. dashes n (a ∷ s) ≡ 0 → dashes n (a ∷ remaining 0 s) ≡ 0)
        (sym ((==_iff c b'-').0 e)) (dashes_first n s) h
  | inr e ↦ other_front n c (remaining 0 s) e
]

dashes-remaining : (n : ℕ) (s : Bytes) → dashes n s ≡ 0 → dashes n (remaining 0 s) ≡ 0
dashes-remaining n s h = elim (front_cases s) [
  | inl e ↦ dashes_end n (remaining 0 s) e
  | inr (c, t, p, q) ↦ ap (dashes n) q ∙ dashes_front n c t (sym (ap (dashes n) p) ∙ h)
]

white_dashes_front :
    (c : ℕ) (s : Bytes) → white_dashes (c ∷ s) ≡ 0 → white_dashes (c ∷ remaining 0 s) ≡ 0
white_dashes_front c s h = elim (Bool-cases (is_white c)) [
  | inl w ↦ rw w (dashes-remaining 1 s (simp w at h))
  | inr w ↦ rw w refl
]

unmatched_front :
    (c : ℕ) (s : Bytes)
    → one_line_comment false (c ∷ s) ≡ 0
    → one_line_comment false (c ∷ remaining 0 s) ≡ 0
unfolding one_line_comment
unmatched_front c s h = white_dashes_front c s h

remaining-HasNone : (skip : ℕ) (s : Bytes) → HasNone one_line_comment false (remaining skip s)
unfolding remove_all
remaining-HasNone zero [] = tt
remaining-HasNone (suc skip) [] = tt
remaining-HasNone (suc skip) (c ∷ s) = remaining-HasNone skip s
remaining-HasNone zero (c ∷ s) = elim (step_cases false c s) [
  | inl k ↦
      subst (HasNone one_line_comment false) (sym k.keeps)
        (unmatched_front c s k.unmatched, remaining-HasNone 0 s)
  | inr d ↦ subst (HasNone one_line_comment false) (sym d.drops) (remaining-HasNone d.more s)
]

-- At the start of the text.
start_white : (s : Bytes) → dashes 0 s ≡ 0 → one_line_comment true s ≡ white_dashes s
unfolding one_line_comment
start_white s h = rw h refl

start_dashes : (s : Bytes) → one_line_comment true s ≡ 0 → dashes 0 s ≡ 0
unfolding one_line_comment
start_dashes s h = elim (dashes_cases 0 s) [
  | inl z ↦ z
  | inr d ↦
      absurd (grind (arith, subst (λ n. (if ltb 0 n then n else white_dashes s) ≡ 0) d.matches h))
]

start_front :
    (c : ℕ) (s : Bytes)
    → one_line_comment true (c ∷ s) ≡ 0
    → one_line_comment true (c ∷ remaining 0 s) ≡ 0
start_front c s h =
    let none = start_dashes (c ∷ s) h in
    start_white (c ∷ remaining 0 s) (dashes_front 0 c s none)
    ∙ white_dashes_front c s (sym (start_white (c ∷ s) none) ∙ h)

start-HasNone :
    (r : Bytes)
    → at_end r ≡ true
    → HasNone one_line_comment false r
    → HasNone one_line_comment true r
unfolding one_line_comment
start-HasNone [] e h = tt
start-HasNone (c ∷ r) e h = (start_white (c ∷ r) (dashes_end 0 (c ∷ r) e) ∙ h.0, h.1)

removed-HasNone : (s : Bytes) → HasNone one_line_comment true (remove_all one_line_comment true 0 s)
unfolding remove_all
removed-HasNone [] = tt
removed-HasNone (c ∷ s) = elim (step_cases true c s) [
  | inl k ↦
      subst (HasNone one_line_comment true) (sym k.keeps)
        (start_front c s k.unmatched, remaining-HasNone 0 s)
  | inr d ↦ subst (HasNone one_line_comment true) (sym d.drops) (
      start-HasNone (remaining d.more s) (remaining-at_end d.more s d.ends)
        (remaining-HasNone d.more s))
]

-- Whatever the query, the text that `GetTidySQL` and `GetTableNamesInQuery` read in its place has no
-- place where the pattern of one-line comments matches: the removal brings no new one together.
pub strip_comments-HasNone : (query : Bytes) → HasNone one_line_comment true (strip_comments query)
unfolding strip_comments
strip_comments-HasNone query = removed-HasNone (remove_all multi_line_comment true 0 query)
