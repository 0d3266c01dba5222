-- ===== src/Params/Splice.antt =====
-- `interpolateParams` against its reference.
use mathlib.Core.List.{append_assoc, append-nil}
use athenadriver.Base.{
  ℕ, zero, suc, ◌+◌, ◌*◌, ◌≤◌, ◌<◌, Bool, true, false, not, ◌&&◌, List, [], ◌∷◌, ◌++◌, Option, none,
  some, ◌==◌, Bytes, codes, length, take, ◌≡◌, ◌≢◌, refl, sym, ap, ◌∙◌, arith, Bool-cases,
  Option-cases, inl, inr, ◌⊎◌, ==_iff, ltb, length-append, take-length,
}
use athenadriver.Errors.{
  Outcome, returned, failed, invalid_query, query_unknown_type, query_buffer_of,
}
use athenadriver.Escape
use athenadriver.Escape.Buffer.{escape_text, escape_bytes_backslash-append}
use athenadriver.GoTime.{add_nanos, year}
use athenadriver.Params.Reference.{
  join, join-eq-some, rest_none, value_text, splice, behind, splice-index_none, splice-index_some,
  splice-parts, splice_end, splice_nil, splice-count,
}
use athenadriver.Params.Times.{IsTabulated, append_time-execution_time}
use athenadriver.Params.{
  append_escaped, append_value, is_null, interpolate_loop, interpolate_params,
  max_query_string_length,
}
use athenadriver.Strings.{index_byte, count_byte}
use athenadriver.Values.{Value, null, int64, uint64, float64, boolean, time, bytes, text, other}

module _ (format_float : ℕ → Bytes) where
  -- The year of a time argument is one of the years 0 to 9999.
  abbrev pub HasYear : Value → Type 0
  HasYear (time v) = IsTabulated (year (add_nanos v 500))
  HasYear _ = Unit

  abbrev pub AllHaveYear : List Value → Type 0
  AllHaveYear [] = Unit
  AllHaveYear (a ∷ args) = HasYear a × AllHaveYear args

  abbrev appended : Bytes → Option Bytes → Outcome Bytes
  appended buf none = failed query_unknown_type
  appended buf (some t) = returned (buf ++ t)

  append_escaped-text : (buf v : Bytes) → append_escaped buf v ≡ returned (buf ++ escape_text v)
  unfolding append_escaped
  append_escaped-text buf v =
      let (s, e, c, ok, short) = escape_bytes_backslash-append (Escape.full buf) v (omega arith) in
      rw e (ap returned (c ∙ ap (λ x. x ++ escape_text v) (take-length buf)))

  append_value-text :
      (buf : Bytes) (v : Value)
      → HasYear v
      → append_value format_float buf v ≡ appended buf (value_text format_float v)
  unfolding append_value
  append_value-text buf null h = refl
  append_value-text buf (int64 v) h = refl
  append_value-text buf (uint64 v) h = refl
  append_value-text buf (float64 v) h = refl
  append_value-text buf (boolean v) h = refl
  append_value-text buf (time v) h = append_time-execution_time buf v h
  append_value-text buf (bytes v) h =
      rw (append_escaped-text (buf ++ codes "_binary'") v) (simp append_assoc)
  append_value-text buf (text v) h =
      rw (append_escaped-text (buf ++ b'\'' ∷ []) v) (simp append_assoc)
  append_value-text buf other h = refl

  abbrev limit : ℕ
  limit = 10 * max_query_string_length

  -- What the loop may give for a reference text `t`: it, or the overflow of a text near the limit.
  abbrev pub Gives : Outcome Bytes → Bytes → Type 0
  Gives o t = (o ≡ returned t) ⊎ ((o ≡ failed query_buffer_of) × (limit < length t + 4))

  loop-none :
      (fuel c : ℕ) (cs : Bytes) (args : List Value) (buf : Bytes)
      → index_byte (c ∷ cs) b'?' ≡ none
      → interpolate_loop format_float (suc fuel) (c ∷ cs) args buf ≡ returned (buf ++ (c ∷ cs))
  unfolding interpolate_loop
  loop-none fuel c cs args buf n = rw (n, interpolate_loop)

  -- The length test behind an argument.
  abbrev overflows : Value → Bytes → Bool
  overflows arg buf = not (is_null arg) && ltb limit (length buf + 4)

  abbrev checked : Bool → Outcome Bytes → Outcome Bytes
  checked b rest = elim b [ true ↦ failed query_buffer_of | false ↦ rest ]

  -- One round of the loop, for an argument whose text is `u`.
  loop-argument :
      (fuel c : ℕ) (cs : Bytes) (arg : Value) (args : List Value) (buf u : Bytes) {k : ℕ}
      → index_byte (c ∷ cs) b'?' ≡ some k
      → HasYear arg
      → value_text format_float arg ≡ some u
      → let buf' = (buf ++ take k (c ∷ cs)) ++ u in
        interpolate_loop format_float (suc fuel) (c ∷ cs) (arg ∷ args) buf
        ≡ checked
            (overflows arg buf')
            (interpolate_loop format_float fuel (behind format_float (c ∷ cs) k) args buf')
  unfolding interpolate_loop
  loop-argument fuel c cs arg args buf u {k} n y w =
      rw (n, interpolate_loop) (rw (append_value-text (buf ++ take k (c ∷ cs)) arg y) (rw w))

  loop-unknown :
      (fuel c : ℕ) (cs : Bytes) (arg : Value) (args : List Value) (buf : Bytes) {k : ℕ}
      → index_byte (c ∷ cs) b'?' ≡ some k
      → HasYear arg
      → value_text format_float arg ≡ none
      → interpolate_loop format_float (suc fuel) (c ∷ cs) (arg ∷ args) buf
        ≡ failed query_unknown_type
  unfolding interpolate_loop
  loop-unknown fuel c cs arg args buf {k} n y w =
      rw (n, interpolate_loop) (rw (append_value-text (buf ++ take k (c ∷ cs)) arg y) (rw w))

  Gives-step :
      (b : Bool) (o : Outcome Bytes) (buf t r : Bytes)
      → (b ≡ true → limit < length buf + 4)
      → buf ++ r ≡ t
      → Gives o (buf ++ r)
      → Gives (checked b o) t
  Gives-step true o buf t r h e g =
      inr (refl, omega (arith, h refl, length-append buf r, ap length e))
  Gives-step false o buf t r h e g = rw e at g

  loop_end :
      (fuel : ℕ) (args : List Value) (buf : Bytes)
      → interpolate_loop format_float fuel [] args buf ≡ returned buf
  unfolding interpolate_loop
  loop_end zero args buf = refl
  loop_end (suc fuel) args buf = refl

  -- With no question mark ahead, the loop copies the rest.
  loop-splice-none :
      (fuel c : ℕ) (cs : Bytes) (args : List Value) (buf : Bytes) {t : Bytes}
      → index_byte (c ∷ cs) b'?' ≡ none
      → splice format_float (c ∷ cs) args ≡ some t
      → interpolate_loop format_float (suc fuel) (c ∷ cs) args buf ≡ returned (buf ++ t)
  loop-splice-none fuel c cs args buf {t} n e =
      let (q, r, p, s, w) =
        join-eq-some (some (c ∷ cs)) (splice format_float [] args)
          (sym (splice-index_none format_float (c ∷ cs) args n).0 ∙ e) in
      let same : (c ∷ cs) ++ [] ≡ t =
        ap (λ r. (c ∷ cs) ++ r) (sym (splice_end format_float args s)) ∙ cc in
      loop-none fuel c cs args buf n
      ∙ ap (λ r. returned (buf ++ r)) (sym (append-nil (c ∷ cs)) ∙ same)

  loop-splice :
      (fuel : ℕ) (q : Bytes) (args : List Value) (buf : Bytes) {t : Bytes}
      → length q ≤ fuel
      → AllHaveYear args
      → splice format_float q args ≡ some t
      → Gives (interpolate_loop format_float fuel q args buf) (buf ++ t)
  loop-splice fuel [] args buf {t} h y e = inl (
      loop_end fuel args buf
      ∙ ap returned
          (sym (append-nil buf) ∙ ap (λ r. buf ++ r) (sym (splice_end format_float args e))))
  loop-splice zero (c ∷ cs) args buf h y e = absurd (omega arith)
  loop-splice (suc fuel) (c ∷ cs) [] buf {t} h y e =
      elim (Option-cases (index_byte (c ∷ cs) b'?')) [
        | inl n ↦ inl (loop-splice-none fuel c cs [] buf n e)
        | inr (k, n) ↦ cc ((splice-index_some format_float (c ∷ cs) [] n).0)
      ]
  loop-splice (suc fuel) (c ∷ cs) (arg ∷ args) buf {t} h y e =
      elim (Option-cases (index_byte (c ∷ cs) b'?')) [
        | inl n ↦ inl (loop-splice-none fuel c cs (arg ∷ args) buf n e)
        | inr (k, n) ↦
            let (u, r, v, s, w) = splice-parts format_float (c ∷ cs) arg args n e in
            let buf' = (buf ++ take k (c ∷ cs)) ++ u in
            let shorter = (splice-index_some format_float (c ∷ cs) (arg ∷ args) n).2 in
            rw (loop-argument fuel c cs arg args buf u n y.0 v) (
              Gives-step (overflows arg buf') _ buf' (buf ++ t) r (λ o. ground arith)
                (append_assoc (buf ++ take k (c ∷ cs)) u r
                  ∙ append_assoc buf (take k (c ∷ cs)) (u ++ r)
                  ∙ ap (λ x. buf ++ x) w)
                (loop-splice fuel (behind format_float (c ∷ cs) k) args buf' (omega arith) y.1 s))
      ]

  abbrev pub Fails : Outcome Bytes → Type 0
  Fails o = (o ≡ failed query_unknown_type) ⊎ (o ≡ failed query_buffer_of)

  Fails-checked : (b : Bool) (o : Outcome Bytes) → Fails o → Fails (checked b o)
  Fails-checked true o h = inr refl
  Fails-checked false o h = h

  -- With as many arguments as question marks, the reference has no text only for an argument of
  -- unknown type, and the loop then fails.
  loop-Fails :
      (fuel : ℕ) (q : Bytes) (args : List Value) (buf : Bytes)
      → length q ≤ fuel
      → AllHaveYear args
      → count_byte q b'?' ≡ length args
      → splice format_float q args ≡ none
      → Fails (interpolate_loop format_float fuel q args buf)
  loop-Fails fuel [] [] buf h y k e = cc (splice_nil format_float)
  loop-Fails fuel [] (a ∷ args) buf h y k e = absurd (omega arith)
  loop-Fails zero (c ∷ cs) args buf h y k e = absurd (omega arith)
  loop-Fails (suc fuel) (c ∷ cs) [] buf h y k e = elim (Option-cases (index_byte (c ∷ cs) b'?')) [
    | inl n ↦ cc (
      (splice-index_none format_float (c ∷ cs) [] n).0,
      ap (join (some (c ∷ cs))) (splice_nil format_float),
    )
    | inr (i, n) ↦ absurd (omega (arith, (splice-index_some format_float (c ∷ cs) [] n).1))
  ]
  loop-Fails (suc fuel) (c ∷ cs) (arg ∷ args) buf h y k e =
      elim (Option-cases (index_byte (c ∷ cs) b'?')) [
        | inl n ↦ absurd (omega (arith, (splice-index_none format_float (c ∷ cs) (arg ∷ args) n).1))
        | inr (i, n) ↦
            let (s, m, l) = splice-index_some format_float (c ∷ cs) (arg ∷ args) n in
            elim (Option-cases (value_text format_float arg)) [
              | inl v ↦ inl (loop-unknown fuel c cs arg args buf n y.0 v)
              | inr (u, v) ↦
                  let buf' = (buf ++ take i (c ∷ cs)) ++ u in
                  rw (loop-argument fuel c cs arg args buf u n y.0 v) (
                    Fails-checked (overflows arg buf') _ (
                      loop-Fails fuel (behind format_float (c ∷ cs) i) args buf' (omega arith) y.1
                        (omega arith)
                        (rest_none (take i (c ∷ cs)) u
                          (splice format_float (behind format_float (c ∷ cs) i) args)
                          (rw v at (sym s ∙ e)))))
            ]
      ]

  -- `interpolateParams` returns exactly the reference text, in which each question mark is
  -- replaced by the SQL text of its argument, provided that the years of its times are among
  -- 0 to 9999. It fails with `ErrQueryBufferOF` only if that text is longer than the limit of
  -- 10 * 262144 bytes less 4.
  pub interpolate_params-splice :
      (query : Bytes) (args : List Value) {t : Bytes}
      → AllHaveYear args
      → splice format_float query args ≡ some t
      → Gives (interpolate_params format_float query args) t
  unfolding interpolate_params
  interpolate_params-splice query args {t} y e =
      rw ((==_iff _ _).1 (splice-count format_float query args e))
        (loop-splice (length query) query args [] (omega arith) y e)

  -- Where the reference has no text, `interpolateParams` reports an error: `ErrInvalidQuery` if
  -- the question marks are not as many as the arguments, and otherwise `ErrQueryUnknownType`, or
  -- `ErrQueryBufferOF` for a text that grew too long before. It never reads an argument that is
  -- not there, and never panics, for times with years from 0 to 9999.
  pub interpolate_params-Fails :
      (query : Bytes) (args : List Value)
      → AllHaveYear args
      → splice format_float query args ≡ none
      → ((count_byte query b'?' ≢ length args)
          × (interpolate_params format_float query args ≡ failed invalid_query))
        ⊎ ((count_byte query b'?' ≡ length args)
            × Fails (interpolate_params format_float query args))
  unfolding interpolate_params
  interpolate_params-Fails query args y e =
      elim (Bool-cases (count_byte query b'?' == length args)) [
        | inl same ↦ inr (
          (==_iff _ _).0 same,
          rw same (loop-Fails (length query) query args [] (omega arith) y ((==_iff _ _).0 same) e),
        )
        | inr differ ↦ inl ((λ eq. cc ((==_iff _ _).1 eq)), rw differ)
      ]
