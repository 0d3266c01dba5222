-- ===== src/Query/Exec.antt =====
-- `ExecContext`, `Ping`, `Prepare` and `Begin` of go/connection.go, go/result.go and go/statement.go.
-- The connection is the configuration and the client, and a statement keeps whether it has one.
use athenadriver.Base.{
  ℕ, Bool, true, false, not, ◌||◌, ◌==◌, List, [], Option, none, some, if◌then◌else◌, Bytes, codes,
  ◌≡◌,
}
use athenadriver.Config.Flags.{is_read_only}
use athenadriver.Config.{Config}
use athenadriver.Decimal.{ℤ, pos, negsuc}
use athenadriver.Errors.{
  Error, Outcome, returned, failed, panics, unfinished, invalid_query, bad_conn,
  athena_transaction_unsupported,
}
use athenadriver.Query.ReadOnly.{
  AllStart, IsRead, AllStart-bind, AllStart-if, none_started, pure-bind, query_context-Starts,
}
use athenadriver.Query.{
  Client, Run, pure, ◌>>=◌, Answer, rows, single, bound_query, is_query_valid, query_context,
  Pseudo, parse_pseudo,
}
use athenadriver.Strings.{count_byte}
use athenadriver.Values.{Value, NamedValue, named_value_to_value, value_to_named_value}

pub record AthenaResult : Type 0 where
  pub last_inserted_id : ℤ
  pub row_affected : ℤ

abbrev update_count : Answer → Option ℤ
update_count (rows r) = r.result_output.update_count
update_count (single q page) = page.update_count

abbrev affected : Option ℤ → ℤ
affected none = pos 0
affected (some n) = n

pub record Statement : Type 0 where
  pub is_connected : Bool
  pub closed : Bool
  pub query : Bytes
  pub num_input : ℕ

unfoldable pub prepare : Bytes → Outcome Statement
prepare query =
    if not (is_query_valid query)
    then failed invalid_query
    else returned (record {
      is_connected = true;
      closed = false;
      query = query;
      num_input = count_byte query b'?';
    })

unfoldable pub begin : Outcome (Unit {0})
begin = failed athena_transaction_unsupported

-- `BeginTx`, whose context and options are not read.
unfoldable pub begin_tx : Outcome (Unit {0})
begin_tx = failed athena_transaction_unsupported

-- The fields of `Connection` that `Close` clears.
pub record Connection : Type 0 where
  pub has_connector : Bool
  pub has_athena_api : Bool
  pub num_input : ℤ

unfoldable pub close_connection : Connection → Connection × Option Error
close_connection c =
    (record { has_connector = false; has_athena_api = false; num_input = negsuc 0 }, none)

unfoldable pub close : Statement → Statement × Option Error
close s =
    if not s.is_connected || s.closed
    then (s, some bad_conn)
    else (record s { query = []; closed = true; num_input = 0 }, none)

unfoldable pub get_num_input : Statement → Statement × ℕ
get_num_input s =
    if s.num_input == 0
    then (record s { num_input = count_byte s.query b'?' }, count_byte s.query b'?')
    else (s, s.num_input)

module _ (format_float : ℕ → Bytes) where
  unfoldable pub exec_context : Config → Client → Bytes → List NamedValue → Run AthenaResult
  unfolding named_value_to_value query_context
  exec_context c client query named =
      pure (bound_query format_float query (named_value_to_value named)) >>= λ query'.
      if not (is_query_valid query')
      then pure (failed invalid_query)
      else (query_context format_float c client query' [] >>= λ answer. pure (
          returned (record {
            last_inserted_id = negsuc 0;
            row_affected = affected (update_count answer);
          })))

  unfoldable pub exec : Config → Client → Statement → List Value → Statement × Run AthenaResult
  unfolding exec_context value_to_named_value
  exec c client s args =
      if s.closed
      then (s, pure (failed bad_conn))
      else if not s.is_connected
      then (s, pure panics)
      else (record s { closed = true }, exec_context c client s.query (value_to_named_value args))

  unfoldable pub query_statement : Config → Client → Statement → List Value → Statement × Run Answer
  unfolding query_context value_to_named_value named_value_to_value
  query_statement c client s args =
      if s.closed
      then (s, pure (failed bad_conn))
      else if not s.is_connected
      then (s, pure panics)
      else (
        record s { closed = true },
        query_context format_float c client s.query
            (named_value_to_value (value_to_named_value args)),
      )

  abbrev ping_answer : Outcome Answer → Outcome (Unit {0})
  ping_answer (returned a) = returned tt
  ping_answer (failed e) = failed bad_conn
  ping_answer panics = panics
  ping_answer unfinished = unfinished

  -- The rows are closed unread.
  unfoldable pub ping : Config → Client → Run (Unit {0})
  unfolding query_context
  ping c client =
      let r = query_context format_float c client (codes "SELECT 1") [] in (r.0, ping_answer r.1)

  -- The query is one that `isReadOnlyStatement` accepts, and is what `QueryContext` reads, behind a
  -- pseudo command or none, of the template with the values in place of its question marks.
  abbrev pub IsBoundRead : Bytes → List Value → Bytes → Type 0
  IsBoundRead template values q =
      IsRead q
      × (text : Bytes) × (bound_query format_float template values ≡ returned text)
      × (cmd : Pseudo) × (parse_pseudo text ≡ returned (cmd, q))

  -- In read-only mode every query that `ExecContext` starts at the service has a text that
  -- `isReadOnlyStatement` accepts, and that text is the one, behind the name of its pseudo command if
  -- it has one, that the arguments in place of the question marks give.
  pub exec_context-IsRead :
      (c : Config) (client : Client) (query : Bytes) (named : List NamedValue)
      → is_read_only c ≡ true
      → AllStart
          (IsBoundRead query (named_value_to_value named))
          (exec_context c client query named).0
  unfolding exec_context
  exec_context-IsRead c client query named h =
      let P = IsBoundRead query (named_value_to_value named) in
      (pure-bind P (bound_query format_float query (named_value_to_value named)) _ λ query' e.
        AllStart-if P (not (is_query_valid query')) (none_started P {o = failed invalid_query}) (
          AllStart-bind P {m = query_context format_float c client query' []}
            (query_context-Starts P format_float c client query' [] h
              (λ cmd q k r. (r, query', e, cmd, k)))
            (λ a. none_started P))).holds
