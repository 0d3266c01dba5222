-- ===== src/Query/Whole.antt =====
-- A run of `QueryContext` of go/connection.go from its text to its rows.
use athenadriver.Base.{
  ◌*◌, ◌<◌, ◌≤◌, none, Option, ℕ, suc, true, false, not, ◌&&◌, List, [], ◌∷◌, ◌++◌, some, Bytes,
  codes, length, ◌≡◌, refl, ap, ◌∙◌, replicate,
}
use athenadriver.Config.Flags.{is_read_only, is_money_wise}
use athenadriver.Config.Groups.{get_workgroup}
use athenadriver.Config.{Config, get_db, get_output_bucket, get_service_limit_override}
use athenadriver.Errors.{Error, returned, failed, query_timeout}
use athenadriver.Params.{build_execution_params}
use athenadriver.Query.Finish.{start_query-returned}
use athenadriver.Query.Group.{IsUsable, usable_resolved}
use athenadriver.Query.Wait.{
  AllWaiting, AllPending, Paced, IsLimit, IsPending, stop_error, behind_stop, wait-stop,
  wait-TimesOut,
}
use athenadriver.Query.{
  Client, Call, poll, start, fetch, after_calls, Execution, Poll, StartInput, rows, plain,
  succeeded, parse_pseudo, run_query, start_query, query_context, bound_query, is_query_valid,
  is_qid, is_read_only_statement, ◌>>=◌, stop, wait, start_answer, fetch_rows,
}
use athenadriver.Rows.Page.{Rows, new_rows}
use athenadriver.Strings.{has_prefix}
use athenadriver.Values.{Value}
use athenadriver.Workgroup.{Workgroup}

-- What `QueryContext` hands to the service for a text, its parameters and a workgroup.
abbrev pub start_input : Config → Bytes → List Bytes → Bytes → StartInput
start_input c template params group = record {
  query_string = template;
  execution_parameters = params;
  database = get_db c;
  output_location = get_output_bucket c;
  work_group = group;
}

-- Why a query that was stopped fails.
abbrev pub stop_cause : Option Error → Error → Error
stop_cause none e = e
stop_cause (some f) e = f

stop_error-cause : (r : Option Error) (e : Error) → stop_error r e ≡ failed (stop_cause r e)
stop_error-cause none e = refl
stop_error-cause (some f) e = refl

module _ (format_float : ℕ → Bytes) (c : Config) (client : Client) where
  -- A text with arguments that passes every check in front of the start: no pseudo command, not
  -- kept back by the read-only mode, bound to a valid text that is no query id, under a usable
  -- workgroup.
  pub record IsAccepted (template : Bytes) (args : List Value) (params : List Bytes) (group : Bytes)
      (calls : List Call) : Type 0 where
    pub not_pseudo : has_prefix template (codes "pc:") ≡ false
    pub is_allowed : (is_read_only c && not (is_read_only_statement template)) ≡ false
    pub text : Bytes
    pub binds : bound_query format_float template args ≡ returned text
    pub is_valid : is_query_valid text ≡ true
    pub not_qid : is_qid text ≡ false
    pub encodes : build_execution_params format_float args ≡ returned params
    pub workgroup : Workgroup
    pub configured : get_workgroup c ≡ returned workgroup
    pub usable : IsUsable c client workgroup group calls

  accepted_started :
      (template : Bytes) (args : List Value) (params : List Bytes) (group : Bytes)
      (calls : List Call)
      → IsAccepted template args params group calls
      → query_context format_float c client template args
        ≡ after_calls calls (start_query c client plain (start_input c template params group))
  unfolding query_context parse_pseudo run_query
  accepted_started template args params group calls h =
      rw (h.not_pseudo, h.is_allowed)
        (rw
          (
            h.binds,
            h.is_valid,
            h.configured,
            usable_resolved c client h.workgroup group calls h.usable,
          )
          (rw (h.not_qid, h.encodes) refl))

  -- A text that `QueryContext` accepts with its arguments, and whose query the service starts, finds
  -- under way a number of times, in time and with the context not done, and then succeeded, has its
  -- rows returned, if the result can be read. The calls are those that find the workgroup, one
  -- start of the text as it was given, with its parameters under that workgroup, one poll for
  -- each answer, and one fetch.
  pub query_context-returned :
      (template : Bytes) (args : List Value) (params : List Bytes) (group : Bytes)
      (calls : List Call) (qid : Bytes) (r : Rows) (before : List Poll) (p : Poll) (x : Execution)
      (ps : List Poll)
      → IsAccepted template args params group calls
      → client.start_query_execution (start_input c template params group) ≡ returned qid
      → client.polls qid ≡ before ++ p ∷ ps
      → AllWaiting (some (get_service_limit_override c)) before
      → p.answer ≡ returned x
      → x.state ≡ succeeded
      → new_rows client.get_location client.get_query_results qid ≡ returned r
      → query_context format_float c client template args ≡ (
        calls
            ++ (start (start_input c template params group)
                ∷ (replicate (suc (length before)) (poll qid) ++ fetch qid ∷ [])),
        returned (rows r),
      )
  query_context-returned template args params group calls qid r before p x ps h s l w a d n =
      accepted_started template args params group calls h
      ∙ ap (after_calls calls) (
          start_query-returned c client (start_input c template params group) qid r before p x ps s
            l w a d n)

  -- An accepted text whose query is started waits, and a wait that fails ends the run.
  accepted_fails :
      (template : Bytes) (args : List Value) (params : List Bytes) (group : Bytes)
      (calls cs : List Call) (qid : Bytes) (e : Error)
      → IsAccepted template args params group calls
      → client.start_query_execution (start_input c template params group) ≡ returned qid
      → wait (is_money_wise c) client (some (get_service_limit_override c)) qid (client.polls qid)
        ≡ (cs, failed e)
      → query_context format_float c client template args
        ≡ (calls ++ start (start_input c template params group) ∷ cs, failed e)
  unfolding start_query
  accepted_fails template args params group calls cs qid e h s w =
      let input = start_input c template params group in
      accepted_started template args params group calls h
      ∙ ap (λ o. after_calls calls (after_calls (start input ∷ []) (start_answer c client plain o)))
          s
      ∙ ap
          (λ r.
            after_calls calls (after_calls (start input ∷ []) (r >>= λ _. fetch_rows client qid)))
          w

  -- When the context is done while the query of an accepted text is under way, behind polls that found
  -- it under way and in time, `QueryContext` calls `StopQueryExecution` once, and fails with the error
  -- of that call, or else of the context. That is its last call, but in money-wise mode, where one
  -- call of `GetQueryExecution` is behind a stop that succeeded.
  pub query_context-stop :
      (template : Bytes) (args : List Value) (params : List Bytes) (group : Bytes)
      (calls : List Call) (qid : Bytes) (before : List Poll) (p : Poll) (x : Execution) (e : Error)
      (ps : List Poll)
      → IsAccepted template args params group calls
      → client.start_query_execution (start_input c template params group) ≡ returned qid
      → client.polls qid ≡ before ++ p ∷ ps
      → AllWaiting (some (get_service_limit_override c)) before
      → IsPending p x
      → p.done ≡ some e
      → query_context format_float c client template args ≡ (
        calls
            ++ start (start_input c template params group)
              ∷ (replicate (suc (length before)) (poll qid)
                  ++ stop qid
                    ∷ behind_stop (is_money_wise c) (client.stop_query_execution qid) qid),
        failed (stop_cause (client.stop_query_execution qid) e),
      )
  query_context-stop template args params group calls qid before p x e ps h s l w a d =
      let limits = some (get_service_limit_override c) in
      accepted_fails template args params group calls
        (replicate (suc (length before)) (poll qid)
          ++ stop qid ∷ behind_stop (is_money_wise c) (client.stop_query_execution qid) qid)
        qid (stop_cause (client.stop_query_execution qid) e) h s
        (ap (wait (is_money_wise c) client limits qid) l
          ∙ wait-stop (is_money_wise c) client limits qid before p x e ps w a d
          ∙ ap
              (λ o. (
                replicate (suc (length before)) (poll qid)
                    ++ stop qid
                      ∷ behind_stop (is_money_wise c) (client.stop_query_execution qid) qid,
                o,
              ))
              (stop_error-cause (client.stop_query_execution qid) e))

  -- Let `n` seconds fit into a `time.Duration` and be at least 600 minutes and at least either limit
  -- of the configuration, neither negative. If every poll finds the query of an accepted text
  -- queued or running, with the context not done, and the polls come at least `step` nanoseconds
  -- apart and reach beyond `n` seconds, then `QueryContext` fails with `ErrQueryTimeout` within these
  -- polls, whatever the class of the statement. They are its last calls, so the query itself is not
  -- stopped at the service.
  pub query_context_times_out :
      (template : Bytes) (args : List Value) (params : List Bytes) (group : Bytes)
      (calls : List Call) (qid : Bytes) (n step : ℕ)
      → IsAccepted template args params group calls
      → client.start_query_execution (start_input c template params group) ≡ returned qid
      → IsLimit n (get_service_limit_override c)
      → AllPending (client.polls qid)
      → Paced step 0 (client.polls qid)
      → n * 1_000_000_000 < length (client.polls qid) * step
      → (k : ℕ) × (k ≤ length (client.polls qid))
        × (query_context format_float c client template args ≡ (
          calls ++ start (start_input c template params group) ∷ replicate k (poll qid),
          failed query_timeout,
        ))
  query_context_times_out template args params group calls qid n step h s o a q l =
      let (k, m, w) =
        wait-TimesOut (is_money_wise c) client (get_service_limit_override c) qid n step
          (client.polls qid) o a q l in
      (
        k,
        m,
        accepted_fails template args params group calls (replicate k (poll qid)) qid query_timeout h
            s w,
      )
