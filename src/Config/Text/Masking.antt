-- ===== src/Config/Text/Masking.antt =====
-- Masking a key in a text: the result does not depend on the value behind the key.
use mathlib.Core.List.{append_assoc}
use athenadriver.Base.{
  ℕ, ◌<◌, Bool, true, false, [], ◌∷◌, ◌++◌, Bytes, ◌==◌, ◌≡◌, ◌≢◌, refl, ap, ◌∙◌, sym, arith, ◌&&◌,
  length, length-append, ==_false, Bool-cases, inl, inr,
}
use athenadriver.Config.Text.{has_value, mask_from}
use athenadriver.Strings.Split.{Lacks}

-- A value in an encoded query.
pub record IsValue (v : Bytes) : Type 0 where
  pub not_empty : v ≢ []
  pub lacks : Lacks b'&' v

has_value-append :
    (k s v w : Bytes) → length k < length s → has_value k (s ++ v) ≡ has_value k (s ++ w)
unfolding has_value
has_value-append [] [] v w h = elim h [ ]
has_value-append [] (c ∷ s) v w h = refl
has_value-append (d ∷ k) [] v w h = absurd (omega arith)
has_value-append (d ∷ k) (c ∷ s) v w h =
    ap (λ b. d == c && b) (has_value-append k s v w (omega arith))

has_value-value : (k v post : Bytes) → IsValue v → has_value k (k ++ (v ++ post)) ≡ true
unfolding has_value
has_value-value [] [] post h = absurd (h.not_empty refl)
has_value-value [] (c ∷ v) post h = rw (==_false c b'&' h.lacks.0)
has_value-value (d ∷ k) v post h = ground (arith, has_value-value k v post h)

mask_skip :
    (key s post : Bytes) → Lacks b'&' s → mask_from key true (s ++ post) ≡ mask_from key true post
unfolding mask_from
mask_skip key [] post h = refl
mask_skip key (c ∷ s) post h = rw (==_false c b'&' h.0, mask_from) (mask_skip key s post h.1)

mask_match :
    (key : Bytes) (c : ℕ) (s : Bytes)
    → has_value key (c ∷ s) ≡ true
    → mask_from key false (c ∷ s) ≡ key ++ (b'*' ∷ mask_from key true s)
unfolding mask_from
mask_match key c s h = rw (h, mask_from)

mask_keep :
    (key : Bytes) (c : ℕ) (s : Bytes)
    → has_value key (c ∷ s) ≡ false
    → mask_from key false (c ∷ s) ≡ c ∷ mask_from key false s
unfolding mask_from
mask_keep key c s h = rw (h, mask_from)

mask_ampersand :
    (key : Bytes) (c : ℕ) (s : Bytes)
    → (c == b'&') ≡ true
    → mask_from key true (c ∷ s) ≡ c ∷ mask_from key false s
unfolding mask_from
mask_ampersand key c s h = rw (h, mask_from)

mask_over :
    (key : Bytes) (c : ℕ) (s : Bytes)
    → (c == b'&') ≡ false
    → mask_from key true (c ∷ s) ≡ mask_from key true s
unfolding mask_from
mask_over key c s h = rw (h, mask_from)

module _ (d : ℕ) (k : Bytes) (key_lacks : Lacks b'&' (d ∷ k)) where
  -- Two texts with a key in the same place, and a value of it that differs.
  abbrev pub with_value : Bytes → Bytes → Bytes → Bytes
  with_value pre v post = pre ++ (d ∷ (k ++ (v ++ post)))

  mask_at_key :
      (v post : Bytes)
      → IsValue v
      → mask_from (d ∷ k) false (with_value [] v post)
        ≡ (d ∷ k) ++ (b'*' ∷ mask_from (d ∷ k) true post)
  mask_at_key v post h =
      mask_match (d ∷ k) d (k ++ (v ++ post)) (has_value-value (d ∷ k) v post h)
      ∙ ap (λ r. (d ∷ k) ++ (b'*' ∷ r))
          (mask_skip (d ∷ k) k (v ++ post) key_lacks.1 ∙ mask_skip (d ∷ k) v post h.lacks)

  skip_at_key :
      (v post : Bytes)
      → IsValue v
      → mask_from (d ∷ k) true (with_value [] v post) ≡ mask_from (d ∷ k) true post
  skip_at_key v post h =
      mask_skip (d ∷ k) (d ∷ k) (v ++ post) key_lacks ∙ mask_skip (d ∷ k) v post h.lacks

  has_value-with_value :
      (c : ℕ) (pre v w post : Bytes)
      → has_value (d ∷ k) (c ∷ with_value pre v post)
        ≡ has_value (d ∷ k) (c ∷ with_value pre w post)
  has_value-with_value c pre v w post =
      let known = c ∷ (pre ++ (d ∷ k)) in
      ap (has_value (d ∷ k)) (ap (◌∷◌ c) (sym (append_assoc pre (d ∷ k) (v ++ post))))
      ∙ has_value-append (d ∷ k) known (v ++ post) (w ++ post)
          (omega (arith, length-append {0} pre (d ∷ k)))
      ∙ ap (has_value (d ∷ k)) (ap (◌∷◌ c) (append_assoc pre (d ∷ k) (w ++ post)))

  pub mask_from-with_value :
      (skipping : Bool) (pre v w post : Bytes)
      → IsValue v
      → IsValue w
      → mask_from (d ∷ k) skipping (with_value pre v post)
        ≡ mask_from (d ∷ k) skipping (with_value pre w post)
  mask_from-with_value true [] v w post h l = skip_at_key v post h ∙ sym (skip_at_key w post l)
  mask_from-with_value false [] v w post h l = mask_at_key v post h ∙ sym (mask_at_key w post l)
  mask_from-with_value true (c ∷ pre) v w post h l = elim (Bool-cases (c == b'&')) [
    | inl e ↦
        mask_ampersand (d ∷ k) c (with_value pre v post) e
        ∙ ap (◌∷◌ c) (mask_from-with_value false pre v w post h l)
        ∙ sym (mask_ampersand (d ∷ k) c (with_value pre w post) e)
    | inr e ↦
        mask_over (d ∷ k) c (with_value pre v post) e
        ∙ mask_from-with_value true pre v w post h l
        ∙ sym (mask_over (d ∷ k) c (with_value pre w post) e)
  ]
  mask_from-with_value false (c ∷ pre) v w post h l =
      let same = has_value-with_value c pre v w post in
      elim (Bool-cases (has_value (d ∷ k) (c ∷ with_value pre v post))) [
        | inl e ↦
            mask_match (d ∷ k) c (with_value pre v post) e
            ∙ ap (λ r. (d ∷ k) ++ (b'*' ∷ r)) (mask_from-with_value true pre v w post h l)
            ∙ sym (mask_match (d ∷ k) c (with_value pre w post) (sym same ∙ e))
        | inr e ↦
            mask_keep (d ∷ k) c (with_value pre v post) e
            ∙ ap (◌∷◌ c) (mask_from-with_value false pre v w post h l)
            ∙ sym (mask_keep (d ∷ k) c (with_value pre w post) (sym same ∙ e))
      ]
