-- ===== src/Query.antt =====
-- `QueryContext`, `cachedQuery` and `getHeaderlessSingleRowResultPage` of go/connection.go,
-- `getWG` and `CreateWGRemotely` of go/wg.go, and the classes of statements of go/utils.go.
-- The Athena service is the parameter `Client`: what each call answers, and for the wait the list
-- of polls, each with what the `select` behind it observes. A run gives the calls that were made,
-- in order, and the outcome. Logs, metrics and the printing of costs are left out, but
-- not the call of `GetQueryExecution` that a query stopped in money-wise mode makes for them. The two
-- calls that `NewRows` makes are recorded as one `fetch`. The texts of errors made at run time are
-- shortened to their fixed part.
pub mod Commands
pub mod Exec
pub mod Finish
pub mod Group
pub mod ReadOnly
pub mod Wait
pub mod Whole
use athenadriver.Base.{
  ℕ, suc, ◌+◌, ◌*◌, Bool, true, false, not, ◌&&◌, ◌||◌, List, [], ◌∷◌, ◌++◌, Option, none, some,
  ltb, leb, ◌==◌, if◌then◌else◌, Bytes, codes, bytes_eq, length, drop,
}
use athenadriver.Config.Flags.{is_read_only, is_wg_remote_creation_allowed, is_money_wise}
use athenadriver.Config.Groups.{get_workgroup}
use athenadriver.Config.{Config, get_db, get_output_bucket, get_service_limit_override, is_empty}
use athenadriver.Errors.{
  Error, Outcome, returned, failed, panics, unfinished, invalid_query, query_timeout, canceled,
  message, service, bad_conn, athena_transaction_unsupported,
}
use athenadriver.Errors
use athenadriver.Params.{interpolate_params, build_execution_params, max_query_string_length}
use athenadriver.Rows.Page.{Rows, ResultPage, new_rows, new_headerless_result_page}
use athenadriver.ServiceLimit.Timeout.{StatementType, is_query_time_out}
use athenadriver.ServiceLimit.{ServiceLimitOverride}
use athenadriver.Strings.{has_prefix, to_lower, trim_space, trim_blanks, count_byte}
use athenadriver.Values.{Value}
use athenadriver.Workgroup.{Workgroup, CreateWorkGroupInput, create_wg_remotely, get_wg}

-- `regexp.MustCompile("^[0-9a-f-]{36}$")`
abbrev is_qid_byte : ℕ → Bool
is_qid_byte c = (leb b'0' c && leb c b'9') || (leb b'a' c && leb c b'f') || c == b'-'

abbrev all_qid_bytes : Bytes → Bool
all_qid_bytes [] = true
all_qid_bytes (c ∷ q) = is_qid_byte c && all_qid_bytes q

unfoldable pub is_qid : Bytes → Bool
is_qid q = length q == 36 && all_qid_bytes q

-- `strings.TrimSpace(strings.ToLower(query))`; an index of 0 is a prefix.
abbrev normal : Bytes → Bytes
normal query = trim_space (to_lower query)

unfoldable pub col_in_first_page : Bytes → Bool
col_in_first_page query =
    has_prefix (normal query) (codes "select")
    || has_prefix (normal query) (codes "using")
    || has_prefix (normal query) (codes "with")
    || has_prefix (normal query) (codes "values")

unfoldable pub is_read_only_statement : Bytes → Bool
unfolding is_qid
is_read_only_statement query =
    has_prefix (normal query) (codes "select")
    || has_prefix (normal query) (codes "using")
    || has_prefix (normal query) (codes "with")
    || has_prefix (normal query) (codes "desc")
    || has_prefix (normal query) (codes "show")
    || is_qid query

unfoldable pub is_insert_statement : Bytes → Bool
is_insert_statement query = has_prefix (normal query) (codes "insert")

unfoldable pub is_query_valid : Bytes → Bool
is_query_valid query = ltb (length query) max_query_string_length && ltb 4 (length query)

pub data State : Type 0 where
  queued running succeeded failed_state cancelled : State

-- The answer of `GetQueryExecution`; a failed query's reason may be nil.
pub record Execution : Type 0 where
  pub state : State
  pub reason : Option Bytes
  pub statement_type : StatementType

-- One round of the wait: the answer, whether the context is done in the `select`, with its error,
-- and otherwise the nanoseconds since the start that `isQueryTimeOut` measures.
pub record Poll : Type 0 where
  pub answer : Outcome Execution
  pub done : Option Error
  pub elapsed : ℕ

pub record StartInput : Type 0 where
  pub query_string : Bytes
  pub execution_parameters : List Bytes
  pub database : Bytes
  pub output_location : Bytes
  pub work_group : Bytes

pub record Client : Type 0 where
  -- whether the workgroup is enabled
  pub get_work_group : Bytes → Outcome Bool
  pub create_work_group : CreateWorkGroupInput → Option Error
  pub start_query_execution : StartInput → Outcome Bytes
  pub stop_query_execution : Bytes → Option Error
  -- the text of the state
  pub get_status : Bytes → Outcome Bytes
  pub polls : Bytes → List Poll
  -- for `NewRows`: the output location, and the first page
  pub get_location : Bytes → Outcome Bytes
  pub get_query_results : Bytes → Outcome ResultPage

pub data Call : Type 0 where
  get_group create_group stop status poll fetch : Bytes → Call
  start : StartInput → Call

abbrev pub Run : Type 0 → Type 0
Run A = List Call × Outcome A

abbrev pub after_calls : {B : Type 0} → List Call → Run B → Run B
after_calls cs r = (cs ++ r.0, r.1)

infixl 5 ◌>>=◌
abbrev pub ◌>>=◌ : {A B : Type 0} → Run A → (A → Run B) → Run B
(cs, returned a) >>= f = after_calls cs (f a)
(cs, failed e) >>= f = (cs, failed e)
(cs, panics) >>= f = (cs, panics)
(cs, unfinished) >>= f = (cs, unfinished)

abbrev pub pure : {A : Type 0} → Outcome A → Run A
pure o = ([], o)

abbrev pub call : {A : Type 0} → Call → Outcome A → Run A
call c o = (c ∷ [], o)

abbrev pub from_error : Option Error → Outcome (Unit {0})
from_error none = returned tt
from_error (some e) = failed e

-- What `QueryContext` returns: the rows of a query, or a made page of one text, whose query id
-- and value are that text.
pub data Answer : Type 0 where
  rows : Rows → Answer
  single : Bytes → ResultPage → Answer

unfoldable pub get_headerless_single_row_result_page : Bytes → Answer
unfolding new_headerless_result_page
get_headerless_single_row_result_page qid = single qid (
    new_headerless_result_page (codes "_col0" ∷ []) (some (codes "string") ∷ [])
      ((some qid ∷ []) ∷ []))

pub data Pseudo : Type 0 where
  plain get_qid get_qid_status stop_qid get_driver_version : Pseudo

abbrev driver_version : Bytes
driver_version = codes "1.1.15"

-- The pseudo command and the query that is left, or the error for an unknown one.
unfoldable pub parse_pseudo : Bytes → Outcome (Pseudo × Bytes)
parse_pseudo query =
    if has_prefix query (codes "pc:")
    then (let q = trim_blanks (drop 3 query) in
        if has_prefix q (codes "get_query_id ")
        then returned (get_qid, trim_blanks (drop 12 q))
        else if has_prefix q (codes "get_query_id_status ")
        then returned (get_qid_status, trim_blanks (drop 19 q))
        else if has_prefix q (codes "stop_query_id ")
        then returned (stop_qid, trim_blanks (drop 13 q))
        else if has_prefix q (codes "get_driver_version")
        then returned (get_driver_version, q)
        else failed (message (codes "pseudo command " ++ (q ++ codes "doesn't exist"))))
    else returned (plain, query)

abbrev pub default_wg_name : Bytes
default_wg_name = codes "primary"

abbrev not_found : Error → Bool
not_found (service m id) = bytes_eq m (codes "WorkGroup is not found.")
not_found e = false

abbrev missing_group : Config → Client → Workgroup → Error → Run (Unit {0})
missing_group c client wg e =
    if not (not_found e)
    then pure (failed e)
    else if is_wg_remote_creation_allowed c
    then call (create_group wg.name) (from_error (create_wg_remotely client.create_work_group wg))
    else pure (
        failed
          (message (codes "workgroup doesn't exist and workgroup remote creation is disabled")))

abbrev group_answer : Config → Client → Workgroup → Outcome Bool → Run (Unit {0})
group_answer c client wg (failed e) = missing_group c client wg e
group_answer c client wg (returned enabled) =
    pure (if not enabled then failed (message (codes "workgroup is disabled")) else returned tt)
group_answer c client wg panics = pure panics
group_answer c client wg unfinished = pure unfinished

-- The workgroup part of `QueryContext`: the name that the query runs under.
unfoldable pub resolve_group : Config → Client → Workgroup → Run Bytes
resolve_group c client wg =
    if is_empty wg.name
    then pure (returned default_wg_name)
    else if not (bytes_eq wg.name default_wg_name)
    then (after_calls (get_group wg.name ∷ [])
          (group_answer c client wg (get_wg (some client.get_work_group) wg.name))
        >>= λ _. pure (returned wg.name))
    else pure (returned wg.name)

-- The call of `GetQueryExecution` for the cost of a query that was stopped; its answer is not read.
abbrev final_status : Bool → Bytes → List Call
final_status true qid = status qid ∷ []
final_status false qid = []

-- The `select` behind a poll of a query that is not over, and the next rounds; the Boolean is the
-- money-wise mode.
abbrev select :
    Bool
    → Client
    → Option ServiceLimitOverride
    → Bytes
    → Execution
    → Poll
    → Option Error
    → Run (Unit {0})
    → Run (Unit {0})
select money client limits qid x p (some e) rest =
    call (stop qid) (from_error (client.stop_query_execution qid)) >>= λ _.
    after_calls (final_status money qid) (pure (failed e))
select money client limits qid x p none rest =
    elim (is_query_time_out p.elapsed x.statement_type limits) [
      | true ↦ pure (failed query_timeout)
      | false ↦ rest
    ]

abbrev or_panic : Option Bytes → Outcome (Unit {0})
or_panic none = panics
or_panic (some r) = failed (message r)

abbrev on_state :
    Bool
    → Client
    → Option ServiceLimitOverride
    → Bytes
    → Execution
    → Poll
    → State
    → Run (Unit {0})
    → Run (Unit {0})
on_state money client limits qid x p cancelled rest = pure (failed canceled)
on_state money client limits qid x p failed_state rest = pure (or_panic x.reason)
on_state money client limits qid x p succeeded rest = pure (returned tt)
on_state money client limits qid x p queued rest = select money client limits qid x p p.done rest
on_state money client limits qid x p running rest = select money client limits qid x p p.done rest

-- The loop WAITING_FOR_RESULT over the polls; without a further poll the query is still waiting.
unfoldable pub wait :
    Bool → Client → Option ServiceLimitOverride → Bytes → List Poll → Run (Unit {0})
wait money client limits qid [] = pure unfinished
wait money client limits qid (p ∷ ps) =
    let rest = wait money client limits qid ps in
    call (poll qid) p.answer >>= λ x. on_state money client limits qid x p x.state rest

unfoldable pub fetch_rows : Client → Bytes → Run Answer
fetch_rows client qid =
    call (fetch qid) (new_rows client.get_location client.get_query_results qid) >>= λ r.
    pure (returned (rows r))

abbrev pub stop_then : Client → Bytes → Run Answer
stop_then client query = call (stop query) (from_error (client.stop_query_execution query)) >>= λ _.
    pure (returned (get_headerless_single_row_result_page (codes "OK")))

abbrev pub status_then : Client → Bytes → Run Answer
status_then client query = call (status query) (client.get_status query) >>= λ s.
    pure (returned (get_headerless_single_row_result_page s))

-- Case 1 of `QueryContext`, a query id.
unfoldable pub query_by_id : Client → Pseudo → Bytes → Run Answer
unfolding fetch_rows
query_by_id client get_qid_status query = status_then client query
query_by_id client stop_qid query = stop_then client query
query_by_id client _ query = fetch_rows client query

-- A failed start may still carry the id of the request.
abbrev start_failed : Pseudo → Error → Outcome Answer
start_failed get_qid (service m (b ∷ id)) =
    returned (get_headerless_single_row_result_page (b ∷ id))
start_failed command e = failed e

abbrev started : Config → Client → Pseudo → Bytes → Run Answer
started c client get_qid qid = pure (returned (get_headerless_single_row_result_page qid))
started c client command qid =
    wait (is_money_wise c) client (some (get_service_limit_override c)) qid (client.polls qid)
    >>= λ _. fetch_rows client qid

abbrev start_answer : Config → Client → Pseudo → Outcome Bytes → Run Answer
start_answer c client command (returned qid) = started c client command qid
start_answer c client command (failed e) = pure (start_failed command e)
start_answer c client command panics = pure panics
start_answer c client command unfinished = pure unfinished

-- Case 2 of `QueryContext`: the start of the query, and the wait.
unfoldable pub start_query : Config → Client → Pseudo → StartInput → Run Answer
unfolding wait fetch_rows
start_query c client command input =
    after_calls (start input ∷ [])
      (start_answer c client command (client.start_query_execution input))

abbrev pub write_violation : Error
write_violation = message (codes "writing to Athena database is disallowed in read-only mode")

module _ (format_float : ℕ → Bytes) where
  abbrev bound_query : Bytes → List Value → Outcome Bytes
  bound_query query [] = returned query
  bound_query query (a ∷ args) = interpolate_params format_float query (a ∷ args)

  -- `QueryContext` behind the read-only test.
  unfoldable pub run_query : Config → Client → Pseudo → Bytes → List Value → Run Answer
  unfolding start_query query_by_id resolve_group
  run_query c client command template args = pure (bound_query template args) >>= λ query.
      if not (is_query_valid query)
      then pure (failed invalid_query)
      else (pure (get_workgroup c) >>= λ wg. resolve_group c client wg >>= λ group.
          if is_qid query
          then query_by_id client command query
          else (pure (build_execution_params format_float args) >>= λ params.
              start_query c client command (record {
                query_string = template;
                execution_parameters = params;
                database = get_db c;
                output_location = get_output_bucket c;
                work_group = group;
              })))

  abbrev on_command : Config → Client → List Value → Pseudo × Bytes → Run Answer
  on_command c client args (get_driver_version, query) =
      pure (returned (get_headerless_single_row_result_page driver_version))
  on_command c client args (command, query) =
      if is_read_only c && not (is_read_only_statement query)
      then pure (failed write_violation)
      else run_query c client command query args

  unfoldable pub query_context : Config → Client → Bytes → List Value → Run Answer
  unfolding run_query
  query_context c client query args = pure (parse_pseudo query) >>= λ p. on_command c client args p
