-- ===== src/Rows/Stream/Order.antt =====
-- The swap of readers cannot be seen.
use athenadriver.Base.{
  ℕ, zero, suc, ◌+◌, true, false, List, [], ◌∷◌, none, some, drop, drop-suc, take, ◌≡◌, refl, sym,
  ap, ◌∙◌, arith, inl, inr, ◌⊎◌,
}
use native.Mathlib.Numerals.{add-one}
use athenadriver.Rows.Stream.{
  Stream, Record, open_results, next, swap, close, Event, next_event, swap_event, close_event, run,
}

-- The calls of `Next` before the first `Close`.
abbrev calls : List Event → ℕ
calls [] = 0
calls (next_event ∷ es) = suc (calls es)
calls (swap_event ∷ es) = calls es
calls (close_event ∷ es) = 0

-- While the stream is open, the reader stands behind as many records as were counted.
pub record IsAt (object : List Record) (s : Stream) : Type 0 where
  pub results_at : s.results ≡ some (drop s.read_count object)
  pub is_open : s.reached_last_page ≡ false
  pub not_canceled : s.canceled ≡ false

swap-IsAt : (object : List Record) (s : Stream) → IsAt object s → IsAt object (swap object s)
unfolding swap
swap-IsAt object s h = ground arith

List-cases : (xs : List Record) → (xs ≡ []) ⊎ ((r : Record) × (rs : List Record) × (xs ≡ r ∷ rs))
List-cases [] = inl refl
List-cases (x ∷ xs) = inr (x, xs, refl)

-- At the end of the file nothing is read.
next_end :
    (object : List Record) (s : Stream)
    → IsAt object s
    → drop s.read_count object ≡ []
    → next s ≡ (s, none)
unfolding next
next_end object s h e = ground arith

next_record :
    (object : List Record) (s : Stream) {r : Record} {rs : List Record}
    → IsAt object s
    → drop s.read_count object ≡ r ∷ rs
    → next s ≡ (record s { read_count = s.read_count + 1; results = some rs }, some r)
unfolding next
next_record object s h e = ground arith

advanced-IsAt :
    (object : List Record) (s : Stream) {r : Record} {rs : List Record}
    → IsAt object s
    → drop s.read_count object ≡ r ∷ rs
    → IsAt object (record s { read_count = s.read_count + 1; results = some rs })
advanced-IsAt object s {rs = rs} h e = record {
  results_at = ap some (sym (rw (← add-one s.read_count) at (drop-suc s.read_count object e)));
  is_open = h.is_open;
  not_canceled = h.not_canceled;
}

take_nil : (n : ℕ) → take n (let e : List Record = [] in e) ≡ []
take_nil zero = refl
take_nil (suc n) = refl

next_closed : (s : Stream) → s.reached_last_page ≡ true → next s ≡ (s, none)
unfolding next
next_closed s h = rw h

swap_last :
    (object : List Record) (s : Stream) → (swap object s).reached_last_page ≡ s.reached_last_page
unfolding swap
swap_last object s = ground arith

close_last : (s : Stream) → (close s).reached_last_page ≡ true
unfolding close
close_last s = refl

run_closed :
    (object : List Record) (s : Stream) (es : List Event)
    → s.reached_last_page ≡ true
    → (run object s es).0 ≡ []
unfolding run
run_closed object s [] h = refl
run_closed object s (next_event ∷ es) h = rw (next_closed s h) (run_closed object s es h)
run_closed object s (swap_event ∷ es) h =
    run_closed object (swap object s) es (swap_last object s ∙ h)
run_closed object s (close_event ∷ es) h = run_closed object (close s) es (close_last s)

swap_count : (object : List Record) (s : Stream) → (swap object s).read_count ≡ s.read_count
unfolding swap
swap_count object s = ground arith

-- While open, `Next` returns the unread records in order.
run-IsAt :
    (object : List Record) (s : Stream) (es : List Event)
    → IsAt object s
    → (run object s es).0 ≡ take (calls es) (drop s.read_count object)
unfolding run
run-IsAt object s [] h = refl
run-IsAt object s (next_event ∷ es) h = elim (List-cases (drop s.read_count object)) [
  | inl e ↦
      rw (next_end object s h e, e)
        (run-IsAt object s es h ∙ ap (take (calls es)) e ∙ take_nil (calls es))
  | inr (r, rs, e) ↦
      let s' : Stream = record s { read_count = s.read_count + 1; results = some rs } in
      let advanced = advanced-IsAt object s h e in
      let behind : drop (s.read_count + 1) object ≡ rs =
        ap (λ n. drop n object) (add-one s.read_count) ∙ drop-suc s.read_count object e in
      rw (next_record object s h e, e)
        (ap (λ x. r ∷ x) (run-IsAt object s' es advanced ∙ ap (take (calls es)) behind))
]
run-IsAt object s (swap_event ∷ es) h =
    run-IsAt object (swap object s) es (swap-IsAt object s h)
    ∙ ap (λ n. take (calls es) (drop n object)) (swap_count object s)
run-IsAt object s (close_event ∷ es) h = run_closed object (close s) es (close_last s)

-- Once the result file is opened, the calls of `Next` before the first `Close` return the
-- records behind the header in order, none twice and none left out, and those after it return
-- nothing, wherever among them the goroutine swaps the readers, and if it does.
run_in_order :
    (header : Record) (records : List Record) (es : List Event)
    → (run (header ∷ records) (open_results false (header ∷ records)).0 es).0
      ≡ take (calls es) records
unfolding open_results
run_in_order header records es =
    run-IsAt (header ∷ records) (open_results false (header ∷ records)).0 es
      (record { results_at = refl; is_open = refl; not_canceled = refl })
