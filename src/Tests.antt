-- ===== src/Tests.antt =====
-- The theorems at concrete inputs; here, those on queries and statements, with a configuration and
-- a service that the children share.
mod Arguments
mod Commands
mod Files
mod Output
mod Queries
mod Results
mod Settings
mod Tidied
mod Setup
use athenadriver.Base.{
  false, if◌then◌else◌, suc, replicate, ℕ, true, false, [], ◌∷◌, ◌++◌, none, some, Bytes, codes,
  length, take, ◌≡◌, ◌≢◌, refl, arith, inl, inr, ◌⊎◌, ◌≤◌, ◌<◌, ◌+◌, ◌*◌,
}
use athenadriver.Config
use athenadriver.Config.Flags.{
  is_missing_as_empty_string, set_missing_as_empty_string, is_missing_as_default,
  set_missing_as_default, is_missing_as_nil, set_missing_as_nil, is_wg_remote_creation_allowed,
  set_wg_remote_creation_allowed, is_metrics_enabled, set_metrics, is_money_wise, set_money_wise,
  is_logging_enabled, set_logging, check_column_masked, set_masked_column_value, is_read_only,
  set_read_only,
}
use athenadriver.Config.Flags.RoundTrip.{flag-set_flag}
use athenadriver.Config.Groups.{
  get_workgroup, set_work_group, get_session_tags, set_session_tag, put_tag,
}
use athenadriver.Config.Laws.{get_service_limit_override-set}
use athenadriver.Config.TagLaws.{
  AllClean, IsClean, own_tags, get_workgroup-set_work_group, get_session_tags-set_session_tag,
}
use athenadriver.Config.{
  Config, new_no_ops_config, set_output_bucket, get_output_bucket, set_service_limit_override,
  get_service_limit_override,
}
use athenadriver.Decimal.{pos, format_int}
use athenadriver.Errors.{canceled, returned, panics, invalid_query}
use athenadriver.Escape.Buffer.{escaped, IsSlice, escape_text, escape_bytes_backslash-append}
use athenadriver.Escape.Literal.{read_literal, literal_body, read_literal-format_string}
use athenadriver.Escape.RoundTrip.{unescape}
use athenadriver.Escape.{Slice, contents, full, escape_bytes_backslash, format_string}
use athenadriver.GoTime.{seconds_before, Time, add_nanos, year}
use athenadriver.Params.Reference.{splice}
use athenadriver.Params.Splice.{Gives, Fails, interpolate_params-splice, interpolate_params-Fails}
use athenadriver.Params.Times.{append_time-execution_time, append_time_panics}
use athenadriver.Params.{append_time, execution_time, interpolate_params}
use athenadriver.Query.Exec.{Statement, exec_context, exec_context-IsRead, IsBoundRead}
use athenadriver.Query.ReadOnly.{AllStart, IsRead, query_context-IsRead}
use athenadriver.Query.Wait.{IsLimit, TimesOut, stop_error, wait-TimesOut, wait-stop}
use athenadriver.Query.{Poll, Execution, running, wait, poll, stop, Client, query_context}
use athenadriver.Rows.Convert
use athenadriver.Rows.Convert.{
  athena_type_to_go_type, Library, convert_value, scan_time, int8, int16, int32,
}
use athenadriver.Rows.Convert.Laws.{fitting, convert_value-format_int, scan_time_panics}
use athenadriver.Rows.Convert.Mask.{athena_type_to_go_type-set_masked_column_value}
use athenadriver.Rows.Page.Header.{behind_header, first_page-is_header}
use athenadriver.Rows.Page.{ColumnInfo, first_page, is_header, ResultPage}
use athenadriver.Rows.Stream.{next_event, swap_event, close_event, open_results, run}
use athenadriver.ServiceLimit.Timeout.{dml, is_query_time_out}
use athenadriver.ServiceLimit.{ServiceLimitOverride}
use athenadriver.Strings.{count_byte}
use athenadriver.Url
use athenadriver.Url.{get, lookup}
use athenadriver.Values.{int64, null, text, named_value_to_value, value_to_named_value}
use athenadriver.Workgroup.{Tag, Workgroup, get_tags, get_default_wg_config}

abbrev no_digits : ℕ → Bytes
no_digits bits = []

abbrev read_only_config : Config
read_only_config = set_read_only new_no_ops_config true

abbrev page : ResultPage
page = record {
  rows = (some (codes "1") ∷ []) ∷ [];
  columns = some (some []);
  update_count = none;
  next_token = none;
}

abbrev service : Client
service = record {
  get_work_group = λ _. returned true;
  create_work_group = λ _. none;
  start_query_execution = λ _. returned (codes "id");
  stop_query_execution = λ _. none;
  get_status = λ _. returned (codes "SUCCEEDED");
  polls = λ _. [];
  get_location = λ _. returned (codes "s3://bucket/id.csv");
  get_query_results = λ _. returned page;
}

read_only_config-is_read_only : is_read_only read_only_config ≡ true
unfolding is_read_only set_read_only new_no_ops_config Url.get Url.put
read_only_config-is_read_only = refl

query_context-IsRead_example :
    AllStart IsRead
      (query_context no_digits read_only_config service (codes "select ?") (int64 (pos 7) ∷ [])).0
query_context-IsRead_example =
    query_context-IsRead no_digits read_only_config service (codes "select ?") (int64 (pos 7) ∷ [])
      read_only_config-is_read_only

abbrev under_way : Execution
under_way = record { state = running; reason = none; statement_type = dml }

abbrev late_poll : Poll
late_poll = record { answer = returned under_way; done = none; elapsed = 40_000_000_000_000 }

abbrev canceled_poll : Poll
canceled_poll = record { answer = returned under_way; done = some canceled; elapsed = 0 }

abbrev early_poll : Poll
early_poll = record { answer = returned under_way; done = none; elapsed = 1 }

exec_context-IsRead_example :
    AllStart
      (IsBoundRead no_digits
        (codes "select ?")
        (named_value_to_value (value_to_named_value (int64 (pos 7) ∷ []))))
      (exec_context no_digits read_only_config service
        (codes "select ?")
        (value_to_named_value (int64 (pos 7) ∷ []))).0
exec_context-IsRead_example =
    exec_context-IsRead no_digits read_only_config service (codes "select ?")
      (value_to_named_value (int64 (pos 7) ∷ [])) read_only_config-is_read_only

abbrev insertion : Statement
insertion = record {
  is_connected = true;
  closed = false;
  query = codes "insert into t values (?)";
  num_input = 1;
}

abbrev early : Time
early = record { seconds = seconds_before + 3600; nanos = 1500 }
