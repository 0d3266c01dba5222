-- ===== src/Params/Reference.antt =====
-- The reference for `interpolateParams` of go/connection.go: it walks the query byte by byte, and
-- puts the text of an argument in place of each question mark.
use mathlib.Core.List.{append_assoc}
use athenadriver.Base.{
  ℕ, suc, ◌+◌, ◌<◌, true, false, List, [], ◌∷◌, ◌++◌, Option, none, some, ◌==◌, if◌then◌else◌,
  Bytes, codes, length, take, drop, ◌≡◌, refl, sym, ◌∙◌, arith, Bool-cases, Option-cases, inl, inr,
}
use athenadriver.Decimal.{format_int, format_uint}
use athenadriver.Escape.Buffer.{escape_text}
use athenadriver.Params.{execution_time}
use athenadriver.Strings.{index_byte, count_byte}
use athenadriver.Values.{Value, null, int64, uint64, float64, boolean, time, bytes, text, other}

-- Both texts, if both are there.
abbrev pub join : Option Bytes → Option Bytes → Option Bytes
join none t = none
join (some s) none = none
join (some s) (some t) = some (s ++ t)

pub join-eq-some :
    (s t : Option Bytes) {r : Bytes}
    → join s t ≡ some r
    → (a : Bytes) × (b : Bytes) × (s ≡ some a) × (t ≡ some b) × (a ++ b ≡ r)
join-eq-some none t h = cc
join-eq-some (some a) none h = cc
join-eq-some (some a) (some b) h = (a, b, refl, refl, cc)

pub rest_none :
    (pre u : Bytes) (r : Option Bytes) → join (some pre) (join (some u) r) ≡ none → r ≡ none
rest_none pre u none h = refl
rest_none pre u (some r) h = cc

join-nil : (t : Option Bytes) → join (some []) t ≡ t
join-nil none = refl
join-nil (some t) = refl

module _ (format_float : ℕ → Bytes) where
  -- The SQL text of an argument; an argument of an unknown type has none.
  abbrev pub value_text : Value → Option Bytes
  value_text null = some (codes "NULL")
  value_text (int64 v) = some (format_int v)
  value_text (uint64 v) = some (format_uint v)
  value_text (float64 v) = some (format_float v)
  value_text (boolean v) = some (if v then codes "1" else codes "0")
  value_text (time v) = some (execution_time v)
  value_text (bytes v) = some (codes "_binary'" ++ (escape_text v ++ b'\'' ∷ []))
  value_text (text v) = some (b'\'' ∷ (escape_text v ++ b'\'' ∷ []))
  value_text other = none

  abbrev pub splice_argument : List Value → (List Value → Option Bytes) → Option Bytes
  splice_argument [] rest = none
  splice_argument (a ∷ args) rest = join (value_text a) (rest args)

  -- The reference: each question mark is replaced by the text of the next argument, and every
  -- other byte is kept. It fails if an argument has no text, or the numbers do not match.
  unfoldable pub splice : Bytes → List Value → Option Bytes
  splice [] [] = some []
  splice [] (a ∷ args) = none
  splice (c ∷ cs) args =
      if c == b'?' then splice_argument args (splice cs) else join (some (c ∷ [])) (splice cs args)

  join_assoc : (a b c : Option Bytes) → join (join a b) c ≡ join a (join b c)
  join_assoc none b c = refl
  join_assoc (some a) none c = refl
  join_assoc (some a) (some b) none = refl
  join_assoc (some a) (some b) (some c) = rw (append_assoc a b c)

  -- What `strings.IndexByte` finds, for the reference.
  abbrev pub behind : Bytes → ℕ → Bytes
  behind q k = drop (suc k) q

  pub splice_mark :
      (c : ℕ) (cs : Bytes) (args : List Value)
      → (c == b'?') ≡ true
      → splice (c ∷ cs) args ≡ splice_argument args (splice cs)
  unfolding splice
  splice_mark c cs args e = rw e

  pub splice_plain :
      (c : ℕ) (cs : Bytes) (args : List Value)
      → (c == b'?') ≡ false
      → splice (c ∷ cs) args ≡ join (some (c ∷ [])) (splice cs args)
  unfolding splice
  splice_plain c cs args e = rw e

  pub splice-index_none :
      (q : Bytes) (args : List Value)
      → index_byte q b'?' ≡ none
      → (splice q args ≡ join (some q) (splice [] args)) × (count_byte q b'?' ≡ 0)
  unfolding index_byte
  splice-index_none [] args h = (sym (join-nil (splice [] args)), refl)
  splice-index_none (c ∷ cs) args h = elim (Bool-cases (c == b'?')) [
    | inl e ↦ absurd (ground arith)
    | inr e ↦ elim (Option-cases (index_byte cs b'?')) [
      | inl n ↦
          let (s, k) = splice-index_none cs args n in
          (
            splice_plain c cs args e
                ∙ rw s (sym (join_assoc (some (c ∷ [])) (some cs) (splice [] args))),
            rw (e, k),
          )
      | inr (i, n) ↦ absurd (ground arith)
    ]
  ]

  pub splice-index_some :
      (q : Bytes) (args : List Value) {k : ℕ}
      → index_byte q b'?' ≡ some k
      → (splice q args ≡ join (some (take k q)) (splice_argument args (splice (behind q k))))
        × (count_byte q b'?' ≡ suc (count_byte (behind q k) b'?'))
        × (length (behind q k) < length q)
  unfolding index_byte
  splice-index_some [] args h = cc
  splice-index_some (c ∷ cs) args {k} h = elim (Bool-cases (c == b'?')) [
    | inl e ↦
        let z : k ≡ 0 = ground arith in
        rw (z, e)
          (
            splice_mark c cs args e ∙ sym (join-nil (splice_argument args (splice cs))),
            omega arith,
            omega arith,
          )
    | inr e ↦ elim (Option-cases (index_byte cs b'?')) [
      | inl n ↦ absurd (ground arith)
      | inr (i, n) ↦
          let z : k ≡ suc i = ground arith in
          let (s, m, l) = splice-index_some cs args n in
          rw (z, e)
            (
              splice_plain c cs args e
                  ∙ rw s (
                      sym (
                        join_assoc (some (c ∷ [])) (some (take i cs))
                          (splice_argument args (splice (behind cs i))))),
              omega (arith, m),
              omega (arith, l),
            )
    ]
  ]

  -- The parts of a reference text at a question mark.
  pub splice-parts :
      (q : Bytes) (arg : Value) (args : List Value) {k : ℕ} {t : Bytes}
      → index_byte q b'?' ≡ some k
      → splice q (arg ∷ args) ≡ some t
      → (u : Bytes) × (r : Bytes) × (value_text arg ≡ some u)
        × (splice (behind q k) args ≡ some r)
        × (take k q ++ (u ++ r) ≡ t)
  splice-parts q arg args {k} n e =
      let (pre, rest, p, j, w) =
        join-eq-some (some (take k q)) (join (value_text arg) (splice (behind q k) args))
          (sym (splice-index_some q (arg ∷ args) n).0 ∙ e) in
      let (u, r, v, s, x) = join-eq-some (value_text arg) (splice (behind q k) args) j in
      (u, r, v, s, cc)

  pub splice_end : (args : List Value) {t : Bytes} → splice [] args ≡ some t → t ≡ []
  unfolding splice
  splice_end [] e = cc
  splice_end (a ∷ args) e = cc

  pub splice_nil : splice [] [] ≡ some []
  unfolding splice
  splice_nil = refl

  pub splice-count :
      (q : Bytes) (args : List Value) {t : Bytes}
      → splice q args ≡ some t
      → count_byte q b'?' ≡ length args
  splice-count [] [] e = refl
  splice-count [] (a ∷ args) e = unfold splice in cc
  splice-count (c ∷ cs) args e = elim (Bool-cases (c == b'?')) [
    | inl m ↦
        rw m (marked args (sym (splice_mark c cs args m) ∙ e) (λ xs r. splice-count cs xs {t = r}))
    | inr m ↦
        let (a, b, p, s, w) =
          join-eq-some (some (c ∷ [])) (splice cs args) (sym (splice_plain c cs args m) ∙ e) in
        rw m (omega (arith, splice-count cs args s))
  ]
    where
      marked :
          (args : List Value) {t : Bytes}
          → splice_argument args (splice cs) ≡ some t
          → ((args : List Value) (r : Bytes)
              → splice cs args ≡ some r
              → count_byte cs b'?' ≡ length args)
          → 1 + count_byte cs b'?' ≡ length args
      marked [] e ih = cc
      marked (a ∷ args) e ih =
          let (u, r, v, s, w) = join-eq-some (value_text a) (splice cs args) e in
          omega (arith, ih args r s)
