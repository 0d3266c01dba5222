-- ===== src/Query/Commands.antt =====
-- The pseudo commands of `QueryContext` of go/connection.go on a query id.
use athenadriver.Base.{
  ℕ, Bool, true, false, not, ◌&&◌, ◌||◌, ◌==◌, ==_iff, [], ◌∷◌, ◌++◌, Bytes, codes, length, ◌≡◌,
  refl, sym, ap, ◌∙◌, arith, Bool-cases, inl, inr, if◌then◌else◌,
}
use athenadriver.Config.Groups.{get_workgroup}
use athenadriver.Config.{Config}
use athenadriver.Config.Flags.{is_read_only}
use athenadriver.Errors.{returned, failed}
use athenadriver.Query.{
  Client, Run, pure, ◌>>=◌, Pseudo, plain, get_qid, get_qid_status, stop_qid, parse_pseudo,
  query_context, run_query, resolve_group, is_qid, is_qid_byte, all_qid_bytes,
  is_read_only_statement, is_query_valid, write_violation, Answer, stop_then, status_then,
  fetch_rows, query_by_id,
}
use athenadriver.Strings.Trim.{is_clean, trim_by-append, trim_left-clean}
use athenadriver.Strings.{trim_blanks}
use mathlib.Core.Bool.{false≢true}
use mathlib.Core.Path.{subst}
use mathlib.Core.List.{reverse, reverse-cons}

abbrev is_blank : ℕ → Bool
is_blank c = c == b' '

trim_blanks-front :
    (front q : Bytes)
    → is_clean is_blank (front ++ q) ≡ true
    → is_clean is_blank (reverse q) ≡ true
    → trim_blanks (front ++ q) ≡ front ++ q
unfolding trim_blanks
trim_blanks-front front q h k =
    trim_by-append is_blank front q (trim_left-clean is_blank (front ++ q) h) k

trim_blanks-behind :
    (q : Bytes)
    → is_clean is_blank q ≡ true
    → is_clean is_blank (reverse q) ≡ true
    → trim_blanks (b' ' ∷ q) ≡ q
unfolding trim_blanks
trim_blanks-behind q h k = trim_by-append is_blank [] q (trim_left-clean is_blank q h) k

module _ (q : Bytes) (h : is_clean is_blank q ≡ true)
    (k : is_clean is_blank (reverse q) ≡ true) where
  parse_pseudo-get_qid : parse_pseudo (codes "pc:get_query_id " ++ q) ≡ returned (get_qid, q)
  unfolding parse_pseudo
  parse_pseudo-get_qid =
      rw (trim_blanks-front (codes "get_query_id ") q refl k)
        (ap (λ t. returned (get_qid, t)) (trim_blanks-behind q h k))

  parse_pseudo-get_qid_status :
      parse_pseudo (codes "pc:get_query_id_status " ++ q) ≡ returned (get_qid_status, q)
  unfolding parse_pseudo
  parse_pseudo-get_qid_status =
      rw (trim_blanks-front (codes "get_query_id_status ") q refl k)
        (ap (λ t. returned (get_qid_status, t)) (trim_blanks-behind q h k))

  parse_pseudo-stop_qid : parse_pseudo (codes "pc:stop_query_id " ++ q) ≡ returned (stop_qid, q)
  unfolding parse_pseudo
  parse_pseudo-stop_qid =
      rw (trim_blanks-front (codes "stop_query_id ") q refl k)
        (ap (λ t. returned (stop_qid, t)) (trim_blanks-behind q h k))

-- A query id has no blanks.
qid_byte_other : (c b : ℕ) → is_qid_byte c ≡ true → is_qid_byte b ≡ false → (c == b) ≡ false
qid_byte_other c b h k = elim (Bool-cases (c == b)) [
  | inl e ↦ absurd (false≢true (sym k ∙ subst (λ d. is_qid_byte d ≡ true) ((==_iff c b).0 e) h))
  | inr e ↦ e
]

qid_byte-clean : (c : ℕ) → is_qid_byte c ≡ true → is_blank c ≡ false
qid_byte-clean c h = qid_byte_other c b' ' h refl

front_byte : (c : ℕ) (s : Bytes) → all_qid_bytes (c ∷ s) ≡ true → is_qid_byte c ≡ true
front_byte c s h = ground arith

all_behind : (c : ℕ) (s : Bytes) → all_qid_bytes (c ∷ s) ≡ true → all_qid_bytes s ≡ true
all_behind c s h = ground arith

clean_behind :
    (s : Bytes) (c : ℕ)
    → all_qid_bytes s ≡ true
    → is_qid_byte c ≡ true
    → is_clean is_blank (s ++ c ∷ []) ≡ true
clean_behind [] c h k = rw (qid_byte-clean c k) refl
clean_behind (b ∷ s) c h k = rw (qid_byte-clean b (front_byte b s h)) refl

all_qid_bytes-append :
    (s t : Bytes) → all_qid_bytes s ≡ true → all_qid_bytes t ≡ true → all_qid_bytes (s ++ t) ≡ true
all_qid_bytes-append [] t h k = k
all_qid_bytes-append (c ∷ s) t h k = ground (arith, all_qid_bytes-append s t)

all_qid_bytes-reverse : (s : Bytes) → all_qid_bytes s ≡ true → all_qid_bytes (reverse s) ≡ true
all_qid_bytes-reverse [] h = refl
all_qid_bytes-reverse (c ∷ s) h =
    ap all_qid_bytes (reverse-cons c s)
    ∙ all_qid_bytes-append (reverse s) (c ∷ []) (all_qid_bytes-reverse s (all_behind c s h))
        (rw (front_byte c s h) refl)

-- Both ends of a query id.
qid_ends :
    (q : Bytes)
    → all_qid_bytes q ≡ true
    → length q ≡ 36
    → (is_clean is_blank q ≡ true) × (is_clean is_blank (reverse q) ≡ true)
qid_ends [] h l = absurd (omega (arith, l))
qid_ends (c ∷ s) h l = (
  rw (qid_byte-clean c (front_byte c s h)) refl,
  ap (is_clean is_blank) (reverse-cons c s)
      ∙ clean_behind (reverse s) c (all_qid_bytes-reverse s (all_behind c s h)) (front_byte c s h),
)

and_parts : (a b : Bool) → (a && b) ≡ true → (a ≡ true) × (b ≡ true)
and_parts true b h = (refl, h)
and_parts false b h = cc

or_last : (a b : Bool) → b ≡ true → (a || b) ≡ true
or_last true b h = refl
or_last false b h = h

-- A query id is no pseudo command.
parse_pseudo-plain : (q : Bytes) → all_qid_bytes q ≡ true → parse_pseudo q ≡ returned (plain, q)
unfolding parse_pseudo
parse_pseudo-plain [] h = refl
parse_pseudo-plain (c ∷ s) h = rw (qid_byte_other c b'p' (front_byte c s h) refl) refl

qid_parts : (q : Bytes) → is_qid q ≡ true → (all_qid_bytes q ≡ true) × (length q ≡ 36)
unfolding is_qid
qid_parts q h = (
  (and_parts (length q == 36) (all_qid_bytes q) h).1,
  (==_iff (length q) 36).0 (and_parts (length q == 36) (all_qid_bytes q) h).0,
)

qid_read_only : (q : Bytes) → is_qid q ≡ true → is_read_only_statement q ≡ true
unfolding is_read_only_statement
qid_read_only q h = or_last _ (is_qid q) h

qid_valid : (q : Bytes) → is_qid q ≡ true → is_query_valid q ≡ true
unfolding is_query_valid
qid_valid q h = rw ((qid_parts q h).1) refl

-- The read-only mode lets a query id through.
guard_open :
    (c : Config) (q : Bytes) (r : Run Answer)
    → is_qid q ≡ true
    → (if is_read_only c && not (is_read_only_statement q)
        then pure (failed write_violation)
        else r)
      ≡ r
guard_open c q r h = elim (Bool-cases (is_read_only c)) [
  | inl e ↦ rw (e, qid_read_only q h) refl
  | inr e ↦ rw e refl
]

-- A run that resolves the workgroup, and then does nothing but `r`.
abbrev pub behind_group : Config → Client → Run Answer → Run Answer
behind_group c client r = pure (get_workgroup c) >>= λ wg. resolve_group c client wg >>= λ group. r

module _ (format_float : ℕ → Bytes) (c : Config) (client : Client) (q : Bytes)
    (h : is_qid q ≡ true) where
  run_query-qid :
      (command : Pseudo)
      → run_query format_float c client command q [] ≡ (
          pure (get_workgroup c) >>= λ wg.
          resolve_group c client wg >>= λ group. query_by_id client command q)
  unfolding run_query
  run_query-qid command = rw (qid_valid q h, h) refl

  command_run :
      (command : Pseudo) (r : Run Answer)
      → query_by_id client command q ≡ r
      → (if is_read_only c && not (is_read_only_statement q)
          then pure (failed write_violation)
          else run_query format_float c client command q [])
        ≡ behind_group c client r
  command_run command r e =
      guard_open c q (run_query format_float c client command q []) h
      ∙ run_query-qid command
      ∙ ap (behind_group c client) e

  -- Whatever the configuration, also in read-only mode, a query id on its own, or behind the pseudo
  -- command `get_query_id`, has its rows read by `NewRows`, behind `get_query_id_status` its state
  -- asked for by one call, and behind `stop_query_id` its query stopped by one call. In front of
  -- that are only the calls that resolve the workgroup, and no query is started.
  pub query_context-is_qid :
      (query_context format_float c client q [] ≡ behind_group c client (fetch_rows client q))
      × (query_context format_float c client (codes "pc:get_query_id " ++ q) []
          ≡ behind_group c client (fetch_rows client q))
      × (query_context format_float c client (codes "pc:get_query_id_status " ++ q) []
          ≡ behind_group c client (status_then client q))
      × (query_context format_float c client (codes "pc:stop_query_id " ++ q) []
          ≡ behind_group c client (stop_then client q))
  unfolding query_context
  query_context-is_qid =
      let clean = qid_ends q (qid_parts q h).0 (qid_parts q h).1 in
      (
        rw (parse_pseudo-plain q (qid_parts q h).0)
            (command_run plain (fetch_rows client q) (unfold query_by_id in refl)),
        rw (parse_pseudo-get_qid q clean.0 clean.1)
            (command_run get_qid (fetch_rows client q) (unfold query_by_id in refl)),
        rw (parse_pseudo-get_qid_status q clean.0 clean.1)
            (command_run get_qid_status (status_then client q) (unfold query_by_id in refl)),
        rw (parse_pseudo-stop_qid q clean.0 clean.1)
            (command_run stop_qid (stop_then client q) (unfold query_by_id in refl)),
      )
