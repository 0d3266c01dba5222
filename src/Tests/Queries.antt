-- ===== src/Tests/Queries.antt =====
-- The theorem on a query that succeeds at a concrete service.
use athenadriver.Base.{
  true, ◌++◌, [], Bytes, ◌∷◌, some, none, codes, ◌≡◌, refl, suc, length, replicate, inr, false,
}
use athenadriver.Config.{Config, new_no_ops_config, get_service_limit_override}
use athenadriver.Decimal.{atoi}
use athenadriver.Errors.{returned}
use athenadriver.Config.Flags.{is_money_wise, set_money_wise}
use athenadriver.Query.Whole.{
  IsAccepted, start_input, query_context-returned, query_context-stop, query_context_times_out,
}
use athenadriver.Query.Wait.{IsLimit}
use athenadriver.Errors.{failed, canceled, query_timeout}
use athenadriver.Base.{ℕ, ◌≤◌, arith}
use athenadriver.Workgroup.{get_default_wg_config, new_wg_tags}
use athenadriver.Query.Group.{unnamed}
use athenadriver.Query.{status, is_query_valid, is_qid}
use athenadriver.Query.{
  status, Client, stop, Execution, Poll, poll, start, fetch, rows, succeeded, query_context,
}
use athenadriver.Rows.Page.{Rows, ResultPage, new_rows}
use athenadriver.ServiceLimit.Timeout.{is_query_time_out}
use athenadriver.Tests.{service, no_digits, early_poll, late_poll, canceled_poll, under_way}
use athenadriver.Url

abbrev finished : Execution
finished = record under_way { state = succeeded }

abbrev last_poll : Poll
last_poll = record early_poll { answer = returned finished }

abbrev one_page : ResultPage
one_page = record {
  columns = some (some (record { name = codes "n"; column_type = some (codes "integer") } ∷ []));
  rows = (some (codes "1") ∷ []) ∷ [];
  update_count = none;
  next_token = none;
}

abbrev quick : Client
quick = record service {
  polls = λ _. (early_poll ∷ []) ++ last_poll ∷ [];
  get_query_results = λ _. returned one_page;
}

abbrev read_rows : Rows
read_rows = record {
  query_id = codes "id";
  reached_last_page = false;
  output_location = codes "s3://bucket/id.csv";
  result_output = one_page;
}

rows-returned :
    new_rows quick.get_location quick.get_query_results (codes "id") ≡ returned read_rows
unfolding new_rows
rows-returned = refl

early_poll-waits :
    is_query_time_out early_poll.elapsed under_way.statement_type
      (some (get_service_limit_override new_no_ops_config))
    ≡ false
unfolding is_query_time_out get_service_limit_override new_no_ops_config Url.put Url.lookup Url.get
    atoi
early_poll-waits = refl

abbrev one : Bytes
one = codes "select 1"

one-IsAccepted :
    (client : Client) → IsAccepted no_digits new_no_ops_config client one [] [] (codes "primary") []
unfolding is_query_valid is_qid athenadriver.Config.Flags.is_read_only Url.get new_no_ops_config
    Url.put athenadriver.Params.build_execution_params athenadriver.Config.Groups.get_workgroup
one-IsAccepted client = record {
  not_pseudo = refl;
  is_allowed = refl;
  text = one;
  binds = refl;
  is_valid = refl;
  not_qid = refl;
  encodes = refl;
  workgroup = record { name = []; config = some get_default_wg_config; tags = some new_wg_tags };
  configured = refl;
  usable = unnamed refl;
}

query_context-returned_example : query_context no_digits new_no_ops_config quick one [] ≡ (
  []
      ++ (start (start_input new_no_ops_config one [] (codes "primary"))
          ∷ (replicate (suc (length (early_poll ∷ []))) (poll (codes "id"))
              ++ fetch (codes "id") ∷ [])),
  returned (rows read_rows),
)
query_context-returned_example =
    query_context-returned no_digits new_no_ops_config quick one [] [] (codes "primary") []
      (codes "id") read_rows (early_poll ∷ []) last_poll finished [] (one-IsAccepted quick) refl
      refl
      (under_way, record { answers = refl; is_under_way = inr refl }, refl, early_poll-waits, tt)
      refl refl rows-returned

abbrev given_up : Client
given_up = record quick { polls = λ _. (early_poll ∷ []) ++ canceled_poll ∷ [] }

abbrev frugal : Config
frugal = set_money_wise new_no_ops_config true

frugal-IsAccepted : IsAccepted no_digits frugal given_up one [] [] (codes "primary") []
unfolding is_query_valid is_qid athenadriver.Config.Flags.is_read_only Url.get new_no_ops_config
    Url.put athenadriver.Params.build_execution_params athenadriver.Config.Groups.get_workgroup
    set_money_wise
frugal-IsAccepted = record {
  not_pseudo = refl;
  is_allowed = refl;
  text = one;
  binds = refl;
  is_valid = refl;
  not_qid = refl;
  encodes = refl;
  workgroup = record { name = []; config = some get_default_wg_config; tags = some new_wg_tags };
  configured = refl;
  usable = unnamed refl;
}

frugal-waits :
    is_query_time_out early_poll.elapsed under_way.statement_type
      (some (get_service_limit_override frugal))
    ≡ false
unfolding is_query_time_out get_service_limit_override new_no_ops_config Url.put Url.lookup Url.get
    atoi set_money_wise
frugal-waits = refl

query_context-stop_example : query_context no_digits frugal given_up one [] ≡ (
  []
      ++ start (start_input frugal one [] (codes "primary"))
        ∷ (replicate (suc (length (early_poll ∷ []))) (poll (codes "id"))
            ++ stop (codes "id") ∷ status (codes "id") ∷ []),
  failed canceled,
)
unfolding is_money_wise set_money_wise new_no_ops_config Url.get Url.put
query_context-stop_example =
    query_context-stop no_digits frugal given_up one [] [] (codes "primary") [] (codes "id")
      (early_poll ∷ []) canceled_poll under_way canceled [] frugal-IsAccepted refl refl
      (under_way, record { answers = refl; is_under_way = inr refl }, refl, frugal-waits, tt)
      (record { answers = refl; is_under_way = inr refl }) refl

abbrev slow : Client
slow = record quick { polls = λ _. late_poll ∷ [] }

default-IsLimit : IsLimit 36_000 (get_service_limit_override new_no_ops_config)
unfolding get_service_limit_override new_no_ops_config Url.put Url.lookup Url.get atoi
default-IsLimit = record {
  ddl_seconds = 0;
  ddl_is = refl;
  ddl_at_most = omega arith;
  dml_seconds = 0;
  dml_is = refl;
  dml_at_most = omega arith;
  default_at_most = omega arith;
  is_duration = omega arith;
}

query_context_times_out_example :
    (k : ℕ) × (k ≤ length (slow.polls (codes "id")))
    × (query_context no_digits new_no_ops_config slow one [] ≡ (
      []
          ++ start (start_input new_no_ops_config one [] (codes "primary"))
            ∷ replicate k (poll (codes "id")),
      failed query_timeout,
    ))
query_context_times_out_example =
    query_context_times_out no_digits new_no_ops_config slow one [] [] (codes "primary") []
      (codes "id") 36_000 40_000_000_000_000 (one-IsAccepted slow) refl default-IsLimit
      (under_way, record { answers = refl; is_under_way = inr refl }, refl, tt) (omega arith, tt)
      (omega arith)
