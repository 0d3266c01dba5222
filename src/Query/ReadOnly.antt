-- ===== src/Query/ReadOnly.antt =====
-- The read-only mode of `QueryContext` of go/connection.go.
use athenadriver.Base.{
  ℕ, Bool, true, false, not, ◌&&◌, List, [], ◌∷◌, ◌++◌, Option, none, some, Bytes, bytes_eq, ◌≡◌,
  refl, Bool-cases, inl, inr, if◌then◌else◌,
}
use athenadriver.Config.Flags.{is_read_only, is_wg_remote_creation_allowed, is_money_wise}
use athenadriver.Config.Groups.{get_workgroup}
use athenadriver.Config.{Config, get_service_limit_override, is_empty}
use athenadriver.Errors.{
  Error, query_timeout, invalid_query, Outcome, returned, failed, panics, unfinished,
}
use athenadriver.Params.{build_execution_params}
use athenadriver.Query.{
  Client, Call, get_group, create_group, stop, status, poll, fetch, start, StartInput, Run,
  after_calls, ◌>>=◌, pure, call, Pseudo, plain, get_qid, get_qid_status, stop_qid,
  get_driver_version, parse_pseudo, missing_group, group_answer, resolve_group, Execution, Poll,
  State, queued, running, succeeded, failed_state, cancelled, select, on_state, wait, fetch_rows,
  query_by_id, started, start_answer, start_query, bound_query, run_query, query_context, rows,
  on_command, write_violation, is_read_only_statement, is_query_valid, is_qid, not_found,
  from_error, final_status, default_wg_name, is_query_valid,
}
use athenadriver.Rows.Page.{new_rows}
use athenadriver.ServiceLimit.Timeout.{is_query_time_out}
use athenadriver.ServiceLimit.{ServiceLimitOverride}
use athenadriver.Values.{Value}
use athenadriver.Workgroup.{get_wg, Workgroup}

-- Every query that the calls start has a text with the property.
abbrev pub AllStart {ℓ} : (Bytes → Type ℓ) → List Call → Type ℓ
AllStart P [] = Unit
AllStart P (start i ∷ cs) = P i.query_string × AllStart P cs
AllStart P (c ∷ cs) = AllStart P cs

-- The same of a run.
pub record Starts (P : Bytes → Type 0) {A : Type 0} (r : Run A) : Type 0 where
  pub holds : AllStart P r.0

module _ (P : Bytes → Type 0) where
  AllStart-append : (cs ds : List Call) → AllStart P cs → AllStart P ds → AllStart P (cs ++ ds)
  AllStart-append [] ds h k = k
  AllStart-append (start i ∷ cs) ds h k = (h.0, AllStart-append cs ds h.1 k)
  AllStart-append (get_group n ∷ cs) ds h k = AllStart-append cs ds h k
  AllStart-append (create_group n ∷ cs) ds h k = AllStart-append cs ds h k
  AllStart-append (stop n ∷ cs) ds h k = AllStart-append cs ds h k
  AllStart-append (status n ∷ cs) ds h k = AllStart-append cs ds h k
  AllStart-append (poll n ∷ cs) ds h k = AllStart-append cs ds h k
  AllStart-append (fetch n ∷ cs) ds h k = AllStart-append cs ds h k

  bind-run :
      {A B : Type 0} (cs : List Call) (o : Outcome A) (f : A → Run B)
      → AllStart P cs
      → ((a : A) → AllStart P (f a).0)
      → AllStart P ((cs, o) >>= f).0
  bind-run cs (returned a) f h k = AllStart-append cs (f a).0 h (k a)
  bind-run cs (failed e) f h k = h
  bind-run cs panics f h k = h
  bind-run cs unfinished f h k = h

  pub AllStart-bind :
      {A B : Type 0} {m : Run A} {f : A → Run B}
      → Starts P m
      → ((a : A) → Starts P (f a))
      → Starts P (m >>= f)
  AllStart-bind {m = m} {f = f} h k = record {
    holds = bind-run m.0 m.1 f h.holds (λ a. (k a).holds);
  }

  pub none_started : {A : Type 0} {o : Outcome A} → Starts P (pure o)
  none_started = record { holds = tt }

  -- Behind an outcome that makes no call, only its value goes on.
  pub pure-bind :
      {A B : Type 0} (o : Outcome A) (f : A → Run B)
      → ((a : A) → o ≡ returned a → Starts P (f a))
      → Starts P (pure o >>= f)
  pure-bind (returned a) f h = record { holds = (h a refl).holds }
  pure-bind (failed e) f h = record { holds = tt }
  pure-bind panics f h = record { holds = tt }
  pure-bind unfinished f h = record { holds = tt }

  pub AllStart-if :
      {A : Type 0} (b : Bool) {r s : Run A}
      → Starts P r
      → Starts P s
      → Starts P (if b then r else s)
  AllStart-if true h k = h
  AllStart-if false h k = k

  final-AllStart :
      (money : Bool) (qid : Bytes) {e : Error}
      → Starts P (after_calls (final_status money qid) (pure {A = Unit {0}} (failed e)))
  final-AllStart true qid = record { holds = tt }
  final-AllStart false qid = record { holds = tt }

  select-AllStart :
      (money : Bool) (client : Client) (limits : Option ServiceLimitOverride) (qid : Bytes)
      (x : Execution) (p : Poll) (d : Option Error) (rest : Run (Unit {0}))
      → Starts P rest
      → Starts P (select money client limits qid x p d rest)
  select-AllStart money client limits qid x p (some e) rest h =
      AllStart-bind {m = call (stop qid) (from_error (client.stop_query_execution qid))}
        (record { holds = tt }) (λ _. final-AllStart money qid)
  select-AllStart money client limits qid x p none rest h =
      elim (is_query_time_out p.elapsed x.statement_type limits)
        as (λ b. Starts P (elim b [ true ↦ pure (failed query_timeout) | false ↦ rest ])) [
          | true ↦ none_started
          | false ↦ h
        ]

  on_state-AllStart :
      (money : Bool) (client : Client) (limits : Option ServiceLimitOverride) (qid : Bytes)
      (x : Execution) (p : Poll) (s : State) (rest : Run (Unit {0}))
      → Starts P rest
      → Starts P (on_state money client limits qid x p s rest)
  on_state-AllStart money client limits qid x p cancelled rest h = none_started
  on_state-AllStart money client limits qid x p failed_state rest h = none_started
  on_state-AllStart money client limits qid x p succeeded rest h = none_started
  on_state-AllStart money client limits qid x p queued rest h =
      select-AllStart money client limits qid x p p.done rest h
  on_state-AllStart money client limits qid x p running rest h =
      select-AllStart money client limits qid x p p.done rest h

  wait-AllStart :
      (money : Bool) (client : Client) (limits : Option ServiceLimitOverride) (qid : Bytes)
      (ps : List Poll)
      → Starts P (wait money client limits qid ps)
  unfolding wait
  wait-AllStart money client limits qid [] = none_started
  wait-AllStart money client limits qid (p ∷ ps) =
      AllStart-bind {m = call (poll qid) p.answer} (record { holds = tt })
        λ x.
          on_state-AllStart money client limits qid x p x.state (wait money client limits qid ps)
            (wait-AllStart money client limits qid ps)

  fetch_rows-AllStart : (client : Client) (qid : Bytes) → Starts P (fetch_rows client qid)
  unfolding fetch_rows
  fetch_rows-AllStart client qid =
      AllStart-bind
        {m = call (fetch qid) (new_rows client.get_location client.get_query_results qid)}
        {f = λ r. pure (returned (rows r))} (record { holds = tt }) (λ r. none_started)

  query_by_id-AllStart :
      (client : Client) (cmd : Pseudo) (query : Bytes) → Starts P (query_by_id client cmd query)
  unfolding query_by_id
  query_by_id-AllStart client get_qid_status query =
      AllStart-bind {m = call (status query) (client.get_status query)} (record { holds = tt })
        (λ r. none_started)
  query_by_id-AllStart client stop_qid query =
      AllStart-bind {m = call (stop query) (from_error (client.stop_query_execution query))}
        (record { holds = tt }) (λ r. none_started)
  query_by_id-AllStart client plain query = fetch_rows-AllStart client query
  query_by_id-AllStart client get_qid query = fetch_rows-AllStart client query
  query_by_id-AllStart client get_driver_version query = fetch_rows-AllStart client query

  waited-AllStart :
      (c : Config) (client : Client) (qid : Bytes)
      → Starts P (
          wait (is_money_wise c) client (some (get_service_limit_override c)) qid (client.polls qid)
          >>= λ _. fetch_rows client qid)
  waited-AllStart c client qid =
      AllStart-bind
        (wait-AllStart (is_money_wise c) client (some (get_service_limit_override c)) qid
          (client.polls qid))
        (λ _. fetch_rows-AllStart client qid)

  started-AllStart :
      (c : Config) (client : Client) (cmd : Pseudo) (qid : Bytes)
      → Starts P (started c client cmd qid)
  started-AllStart c client get_qid qid = none_started
  started-AllStart c client plain qid = waited-AllStart c client qid
  started-AllStart c client get_qid_status qid = waited-AllStart c client qid
  started-AllStart c client stop_qid qid = waited-AllStart c client qid
  started-AllStart c client get_driver_version qid = waited-AllStart c client qid

  start_answer-AllStart :
      (c : Config) (client : Client) (cmd : Pseudo) (o : Outcome Bytes)
      → Starts P (start_answer c client cmd o)
  start_answer-AllStart c client cmd (returned qid) = started-AllStart c client cmd qid
  start_answer-AllStart c client cmd (failed e) = none_started
  start_answer-AllStart c client cmd panics = none_started
  start_answer-AllStart c client cmd unfinished = none_started

  start_query-AllStart :
      (c : Config) (client : Client) (cmd : Pseudo) (input : StartInput)
      → P input.query_string
      → Starts P (start_query c client cmd input)
  unfolding start_query
  start_query-AllStart c client cmd input h = record {
    holds = (h, (start_answer-AllStart c client cmd (client.start_query_execution input)).holds);
  }

  missing_group-AllStart :
      (c : Config) (client : Client) (wg : Workgroup) (e : Error)
      → Starts P (missing_group c client wg e)
  missing_group-AllStart c client wg e =
      AllStart-if (not (not_found e)) none_started
        (AllStart-if (is_wg_remote_creation_allowed c) (record { holds = tt }) none_started)

  group_answer-AllStart :
      (c : Config) (client : Client) (wg : Workgroup) (o : Outcome Bool)
      → Starts P (group_answer c client wg o)
  group_answer-AllStart c client wg (failed e) = missing_group-AllStart c client wg e
  group_answer-AllStart c client wg (returned b) = none_started
  group_answer-AllStart c client wg panics = none_started
  group_answer-AllStart c client wg unfinished = none_started

  resolve_group-AllStart :
      (c : Config) (client : Client) (wg : Workgroup) → Starts P (resolve_group c client wg)
  unfolding resolve_group
  resolve_group-AllStart c client wg =
      AllStart-if (is_empty wg.name) (none_started {o = returned default_wg_name}) (
        AllStart-if (not (bytes_eq wg.name default_wg_name))
          (AllStart-bind
            {m = after_calls (get_group wg.name ∷ [])
              (group_answer c client wg (get_wg (some client.get_work_group) wg.name))}
            {f = λ _. pure (returned wg.name)}
            (record {
              holds =
                  (group_answer-AllStart c client wg
                    (get_wg (some client.get_work_group) wg.name)).holds;
            })
            (λ _. none_started))
          (none_started {o = returned wg.name}))

  module _ (format_float : ℕ → Bytes) where
    run_query-AllStart :
        (c : Config) (client : Client) (cmd : Pseudo) (template : Bytes) (args : List Value)
        → P template
        → Starts P (run_query format_float c client cmd template args)
    unfolding run_query
    run_query-AllStart c client cmd template args h =
        AllStart-bind {m = pure (bound_query format_float template args)} none_started λ query.
          AllStart-if (not (is_query_valid query)) (none_started {o = failed invalid_query}) (
            AllStart-bind {m = pure (get_workgroup c)} none_started λ wg.
              AllStart-bind {m = resolve_group c client wg} (resolve_group-AllStart c client wg)
                λ group. AllStart-if (is_qid query) (query_by_id-AllStart client cmd query) (
                  AllStart-bind {m = pure (build_execution_params format_float args)} none_started
                    λ params. start_query-AllStart c client cmd _ h))

abbrev pub IsRead : Bytes → Type 0
IsRead q = is_read_only_statement q ≡ true

module _ (P : Bytes → Type 0) (format_float : ℕ → Bytes) where
  guarded :
      (c : Config) (client : Client) (args : List Value) (cmd : Pseudo) (query : Bytes)
      → is_read_only c ≡ true
      → (IsRead query → P query)
      → Starts P (
          if is_read_only c && not (is_read_only_statement query)
          then pure (failed write_violation)
          else run_query format_float c client cmd query args)
  guarded c client args cmd query h k = elim (Bool-cases (is_read_only_statement query)) [
    | inl e ↦
        AllStart-if P (is_read_only c && not (is_read_only_statement query)) (none_started P)
          (run_query-AllStart P format_float c client cmd query args (k e))
    | inr e ↦ rw (h, e) (none_started P)
  ]

  on_command-Starts :
      (c : Config) (client : Client) (args : List Value) (p : Pseudo) (query : Bytes)
      → is_read_only c ≡ true
      → (IsRead query → P query)
      → Starts P (on_command format_float c client args (p, query))
  on_command-Starts c client args get_driver_version query h k = none_started P
  on_command-Starts c client args plain query h k = guarded c client args plain query h k
  on_command-Starts c client args get_qid query h k = guarded c client args get_qid query h k
  on_command-Starts c client args get_qid_status query h k =
      guarded c client args get_qid_status query h k
  on_command-Starts c client args stop_qid query h k = guarded c client args stop_qid query h k

  -- What holds of every read-only query that is behind the pseudo command of a text holds of every
  -- query that `QueryContext` starts for that text in read-only mode.
  pub query_context-Starts :
      (c : Config) (client : Client) (query : Bytes) (args : List Value)
      → is_read_only c ≡ true
      → ((cmd : Pseudo) (q : Bytes) → parse_pseudo query ≡ returned (cmd, q) → IsRead q → P q)
      → Starts P (query_context format_float c client query args)
  unfolding query_context
  query_context-Starts c client query args h k =
      pure-bind P (parse_pseudo query) (λ p. on_command format_float c client args p)
        (λ (cmd, q) e. on_command-Starts c client args cmd q h (k cmd q e))

module _ (format_float : ℕ → Bytes) where
  -- In read-only mode every query that `QueryContext` starts at the service has a text that
  -- `isReadOnlyStatement` accepts, whatever pseudo command stands in front of it, whatever the
  -- arguments, and whatever the service answers.
  pub query_context-IsRead :
      (c : Config) (client : Client) (query : Bytes) (args : List Value)
      → is_read_only c ≡ true
      → AllStart IsRead (query_context format_float c client query args).0
  query_context-IsRead c client query args h =
      (query_context-Starts IsRead format_float c client query args h (λ cmd q e r. r)).holds
