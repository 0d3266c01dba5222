-- ===== src/Query/Wait.antt =====
-- The wait of `QueryContext`, the loop WAITING_FOR_RESULT of go/connection.go.
use athenadriver.Base.{
  ℕ, suc, ◌+◌, ◌*◌, Bool, true, false, List, [], ◌∷◌, ◌++◌, Option, none, some, Bytes, length, ◌≡◌,
  refl, ap, ◌∙◌, arith, ◌⊎◌, inl, inr, Bool-cases, ◌<◌, ◌≤◌, ◌==◌, ◌^◌, ◌%◌, lt→ltb, ltb→lt,
  replicate, ltb,
}
use athenadriver.Decimal.{ℤ, pos}
use athenadriver.Errors.{Error, Outcome, returned, failed, query_timeout}
use athenadriver.Query.{
  Client, Call, poll, stop, Run, after_calls, ◌>>=◌, pure, call, from_error, Execution, Poll,
  queued, running, select, wait, status, final_status,
}
use athenadriver.ServiceLimit.Timeout.{
  is_query_time_out, past, expired, chosen, StatementType, ddl, dml, utility, timeout_now, unknown,
}
use athenadriver.ServiceLimit.{ServiceLimitOverride}

-- The service answers that the query is queued or runs.
pub record IsPending (p : Poll) (x : Execution) : Type 0 where
  pub answers : p.answer ≡ returned x
  pub is_under_way : (x.state ≡ queued) ⊎ (x.state ≡ running)

-- Every poll finds the query under way, and the context is not done.
abbrev pub AllPending : List Poll → Type 0
AllPending [] = Unit
AllPending (p ∷ ps) = (x : Execution) × IsPending p x × (p.done ≡ none) × AllPending ps

-- Each poll comes at least `step` nanoseconds behind the one before.
abbrev pub Paced : ℕ → ℕ → List Poll → Type 0
Paced step t [] = Unit
Paced step t (p ∷ ps) = (t + step ≤ p.elapsed) × Paced step p.elapsed ps

module _ (money : Bool) (client : Client) (limits : Option ServiceLimitOverride) (qid : Bytes) where
  pending-select :
      (p : Poll) (ps : List Poll) (x : Execution)
      → IsPending p x
      → wait money client limits qid (p ∷ ps)
        ≡ after_calls
            (poll qid ∷ [])
            (select money client limits qid x p p.done (wait money client limits qid ps))
  unfolding wait
  pending-select p ps x h = elim h.is_under_way [
    | inl e ↦ rw (h.answers, e)
    | inr e ↦ rw (h.answers, e)
  ]

  -- A poll that does not end the wait leaves it to the polls behind it.
  pub pending-continues :
      (p : Poll) (ps : List Poll) (x : Execution)
      → IsPending p x
      → p.done ≡ none
      → is_query_time_out p.elapsed x.statement_type limits ≡ false
      → wait money client limits qid (p ∷ ps)
        ≡ after_calls (poll qid ∷ []) (wait money client limits qid ps)
  pending-continues p ps x h d e =
      pending-select p ps x h
      ∙ ap
          (λ o.
            after_calls (poll qid ∷ [])
              (select money client limits qid x p o (wait money client limits qid ps)))
          d
      ∙ ap
          (λ b. after_calls (poll qid ∷ []) (elim b [
            | true ↦ pure (failed query_timeout)
            | false ↦ wait money client limits qid ps
          ]))
          e

  pending_times_out :
      (p : Poll) (ps : List Poll) (x : Execution)
      → IsPending p x
      → p.done ≡ none
      → is_query_time_out p.elapsed x.statement_type limits ≡ true
      → wait money client limits qid (p ∷ ps) ≡ (poll qid ∷ [], failed query_timeout)
  pending_times_out p ps x h d e =
      pending-select p ps x h
      ∙ ap
          (λ o.
            after_calls (poll qid ∷ [])
              (select money client limits qid x p o (wait money client limits qid ps)))
          d
      ∙ ap
          (λ b. after_calls (poll qid ∷ []) (elim b [
            | true ↦ pure (failed query_timeout)
            | false ↦ wait money client limits qid ps
          ]))
          e

past-late : (a n t : ℕ) → a ≤ n → n ≤ 9_223_372_036 → n * 1_000_000_000 < t → past a t ≡ true
past-late a n t h k l =
    let d : a * 1_000_000_000 % 2 ^ 64 ≡ a * 1_000_000_000 = omega arith in
    rw (
      d,
      lt→ltb (a * 1_000_000_000) (2 ^ 63) (omega arith),
      lt→ltb (a * 1_000_000_000) t (omega arith),
    )

-- Both overrides are at most `n` seconds and not negative, the default of 600 minutes is at most
-- `n` as well, and `n` seconds fit into a `time.Duration`.
pub record IsLimit (n : ℕ) (o : ServiceLimitOverride) : Type 0 where
  pub ddl_seconds : ℕ
  pub ddl_is : o.ddl_query_timeout ≡ pos ddl_seconds
  pub ddl_at_most : ddl_seconds ≤ n
  pub dml_seconds : ℕ
  pub dml_is : o.dml_query_timeout ≡ pos dml_seconds
  pub dml_at_most : dml_seconds ≤ n
  pub default_at_most : 36_000 ≤ n
  pub is_duration : n ≤ 9_223_372_036

chosen-late :
    (a n t : ℕ) (default : ℕ) (o : ServiceLimitOverride) (get : ServiceLimitOverride → ℤ)
    → get o ≡ pos a
    → a ≤ n
    → default ≤ n
    → n ≤ 9_223_372_036
    → n * 1_000_000_000 < t
    → expired (chosen (pos default) (some o) get) t ≡ true
chosen-late a n t default o get e h d k l = elim (Bool-cases (a == 0)) [
  | inl z ↦ rw (e, z) (past-late default n t d k l)
  | inr z ↦ rw (e, z) (past-late a n t h k l)
]

is_query_time_out-late :
    (n t : ℕ) (st : StatementType) (o : ServiceLimitOverride)
    → IsLimit n o
    → n * 1_000_000_000 < t
    → is_query_time_out t st (some o) ≡ true
unfolding is_query_time_out
is_query_time_out-late n t ddl o h l =
    chosen-late h.ddl_seconds n t 36_000 o (λ o. o.ddl_query_timeout) h.ddl_is h.ddl_at_most
      h.default_at_most h.is_duration l
is_query_time_out-late n t dml o h l =
    let d = h.default_at_most in
    chosen-late h.dml_seconds n t 1_800 o (λ o. o.dml_query_timeout) h.dml_is h.dml_at_most
      (omega arith) h.is_duration l
is_query_time_out-late n t utility o h l =
    let d = h.default_at_most in
    chosen-late h.dml_seconds n t 1_800 o (λ o. o.dml_query_timeout) h.dml_is h.dml_at_most
      (omega arith) h.is_duration l
is_query_time_out-late n t timeout_now o h l = refl
is_query_time_out-late n t unknown o h l =
    chosen-late h.ddl_seconds n t 36_000 o (λ o. o.ddl_query_timeout) h.ddl_is h.ddl_at_most
      h.default_at_most h.is_duration l

still_early :
    (n t : ℕ) (st : StatementType) (o : ServiceLimitOverride)
    → IsLimit n o
    → is_query_time_out t st (some o) ≡ false
    → t ≤ n * 1_000_000_000
still_early n t st o h e = elim (Bool-cases (ltb (n * 1_000_000_000) t)) [
  | inl late ↦
      let out : is_query_time_out t st (some o) ≡ true =
        is_query_time_out-late n t st o h (ltb→lt _ _ late) in
      cc
  | inr early ↦ ground arith
]

-- The run polls at most `m` times, makes no other call, and fails with the timeout.
abbrev pub TimesOut : Bytes → ℕ → Run (Unit {0}) → Type 0
TimesOut qid m r = (k : ℕ) × (k ≤ m) × (r ≡ (replicate k (poll qid), failed query_timeout))

wait_late :
    (money : Bool) (client : Client) (o : ServiceLimitOverride) (qid : Bytes) (n step t : ℕ)
    (ps : List Poll)
    → IsLimit n o
    → AllPending ps
    → Paced step t ps
    → t ≤ n * 1_000_000_000
    → n * 1_000_000_000 < t + length ps * step
    → TimesOut qid (length ps) (wait money client (some o) qid ps)
wait_late money client o qid n step t [] h a q u l = absurd (omega arith)
wait_late money client o qid n step t (p ∷ ps) h (x, a, d, rest) q u l =
    elim (Bool-cases (is_query_time_out p.elapsed x.statement_type (some o))) [
      | inl e ↦ (1, omega arith, pending_times_out money client (some o) qid p ps x a d e)
      | inr e ↦
          let early : p.elapsed ≤ n * 1_000_000_000 =
            still_early n p.elapsed x.statement_type o h e in
          let (k, m, w) =
            wait_late money client o qid n step p.elapsed ps h rest q.1 early
              (omega (arith, q.0, l)) in
          (
            suc k,
            omega arith,
            pending-continues money client (some o) qid p ps x a d e
                ∙ ap (after_calls (poll qid ∷ [])) w,
          )
    ]

-- The wait of `QueryContext` for a query that stays under way ends: let `n` seconds fit into a
-- `time.Duration` and be at least 600 minutes and at least either override, neither negative. If
-- every poll finds the query queued or running, with the context not done, and the polls come at
-- least `step` nanoseconds apart and reach beyond `n` seconds, then the wait fails with
-- `ErrQueryTimeout` within these polls, whatever the class of the statement. It makes no other
-- call, so the query itself is not stopped at the service.
pub wait-TimesOut :
    (money : Bool) (client : Client) (o : ServiceLimitOverride) (qid : Bytes) (n step : ℕ)
    (ps : List Poll)
    → IsLimit n o
    → AllPending ps
    → Paced step 0 ps
    → n * 1_000_000_000 < length ps * step
    → TimesOut qid (length ps) (wait money client (some o) qid ps)
wait-TimesOut money client o qid n step ps h a q l =
    wait_late money client o qid n step 0 ps h a q (omega arith) (omega arith)

-- Every poll finds the query under way and in time, and the context is not done.
abbrev pub AllWaiting : Option ServiceLimitOverride → List Poll → Type 0
AllWaiting limits [] = Unit
AllWaiting limits (p ∷ ps) =
    (x : Execution) × IsPending p x
    × (p.done ≡ none)
    × (is_query_time_out p.elapsed x.statement_type limits ≡ false)
    × AllWaiting limits ps

abbrev pub stop_error : Option Error → Error → Outcome (Unit {0})
stop_error none e = failed e
stop_error (some f) e = failed f

-- The call behind one that stopped the query, in money-wise mode.
abbrev pub behind_stop : Bool → Option Error → Bytes → List Call
behind_stop false r qid = []
behind_stop true none qid = status qid ∷ []
behind_stop true (some f) qid = []

stopped_outcome :
    (money : Bool) (qid : Bytes) (r : Option Error) (e : Error)
    → (call (stop qid) (from_error r) >>= λ _.
        after_calls (final_status money qid) (pure (failed e)))
      ≡ (stop qid ∷ behind_stop money r qid, stop_error r e)
stopped_outcome true qid none e = refl
stopped_outcome false qid none e = refl
stopped_outcome true qid (some f) e = refl
stopped_outcome false qid (some f) e = refl

stopped :
    (money : Bool) (client : Client) (limits : Option ServiceLimitOverride) (qid : Bytes)
    (x : Execution) (p : Poll) (e : Error) (rest : Run (Unit {0}))
    → select money client limits qid x p (some e) rest ≡ (
      stop qid ∷ behind_stop money (client.stop_query_execution qid) qid,
      stop_error (client.stop_query_execution qid) e,
    )
stopped money client limits qid x p e rest =
    stopped_outcome money qid (client.stop_query_execution qid) e

-- A query whose context is done while it is under way is stopped at the service: after the polls
-- before, each of which found it under way and in time, the wait of `QueryContext` calls
-- `StopQueryExecution` once, then in money-wise mode, if that call succeeded, `GetQueryExecution`
-- once, and fails with the error of the first of these calls, or else of the context.
pub wait-stop :
    (money : Bool) (client : Client) (limits : Option ServiceLimitOverride) (qid : Bytes)
    (before : List Poll) (p : Poll) (x : Execution) (e : Error) (ps : List Poll)
    → AllWaiting limits before
    → IsPending p x
    → p.done ≡ some e
    → wait money client limits qid (before ++ p ∷ ps) ≡ (
      replicate (suc (length before)) (poll qid)
          ++ stop qid ∷ behind_stop money (client.stop_query_execution qid) qid,
      stop_error (client.stop_query_execution qid) e,
    )
wait-stop money client limits qid [] p x e ps w a d =
    pending-select money client limits qid p ps x a
    ∙ ap
        (λ o.
          after_calls (poll qid ∷ [])
            (select money client limits qid x p o (wait money client limits qid ps)))
        d
    ∙ ap (after_calls (poll qid ∷ []))
        (stopped money client limits qid x p e (wait money client limits qid ps))
wait-stop money client limits qid (b ∷ before) p x e ps (y, a', d', t, rest) a d =
    pending-continues money client limits qid b (before ++ p ∷ ps) y a' d' t
    ∙ ap (after_calls (poll qid ∷ [])) (wait-stop money client limits qid before p x e ps rest a d)
