-- ===== src/Tests/Files.antt =====
-- The theorems on the result file at concrete inputs.
use athenadriver.Base.{
  true, false, List, if◌then◌else◌, [], ◌∷◌, ◌++◌, none, some, codes, inl, inr, ◌≡◌, refl, ◌⊎◌,
}
use athenadriver.Config.{new_no_ops_config}
use athenadriver.Errors.{message}
use athenadriver.Rows.Convert.{nil}
use athenadriver.Rows.File.Delivery.{run_file-file_rows}
use athenadriver.Rows.File.Opening.{no_object, refusals, run_file-refusals}
use athenadriver.Rows.File.Reading.{answers, records_of}
use athenadriver.Rows.File.Release.{finish, is_creating, run_file-close_rows}
use athenadriver.Rows.File.{
  good, FileRows, Remote, FileEvent, next_call, close_call, worker_step, run_file, file_rows,
  close_rows,
}
use athenadriver.Rows.Page.{ResultPage, Rows}
use athenadriver.Rows.Stream.{Record}
use athenadriver.Tests.Results.{go_library}

abbrev heading : Record
heading = codes "id" ∷ []

abbrev lines : List Record
lines = (codes "1" ∷ []) ∷ (codes "2" ∷ []) ∷ []

abbrev id_page : ResultPage
id_page = record {
  columns = some (some (record { name = codes "id"; column_type = some (codes "bigint") } ∷ []));
  rows = [];
  update_count = none;
  next_token = none;
}

abbrev remote : Remote
remote = record {
  parse_location = λ location. some (codes "bucket", codes "/key");
  get_object = λ host path. inr (good heading ∷ records_of lines);
  saved = good heading ∷ records_of lines;
  temp_dir = codes "/tmp";
  join = λ dir name. dir ++ codes "/" ++ name;
}

abbrev empty_remote : Remote
empty_remote = record remote { get_object = λ host path. inl (message (codes "NoSuchKey")) }

abbrev rows : Rows
rows = record {
  query_id = codes "q";
  reached_last_page = false;
  output_location = codes "s3://bucket/key";
  result_output = id_page;
}

abbrev events : List FileEvent
events =
    next_call
    ∷ worker_step true
    ∷ worker_step true
    ∷ worker_step true
    ∷ worker_step true
    ∷ next_call
    ∷ next_call
    ∷ close_call
    ∷ next_call
    ∷ []

run_file-file_rows_example :
    (run_file go_library new_no_ops_config remote (nil ∷ []) (file_rows rows) events).0
    ≡ answers go_library new_no_ops_config remote
        (nil ∷ [])
        (some id_page)
        (if false then [] else lines)
        events
run_file-file_rows_example =
    run_file-file_rows go_library new_no_ops_config remote (nil ∷ []) heading lines rows events
      (record { host = codes "bucket"; path = codes "/key"; parses = refl; answers_with = refl })
      refl

run_file-refusals_example :
    (run_file go_library new_no_ops_config empty_remote (nil ∷ []) (file_rows rows) events).0
    ≡ refusals (message (codes "NoSuchKey")) events
run_file-refusals_example =
    run_file-refusals go_library new_no_ops_config empty_remote (nil ∷ []) rows
      (message (codes "NoSuchKey")) events
      (no_object (codes "bucket") (codes "/key") (message (codes "NoSuchKey")) refl refl)

abbrev at_close : FileRows
at_close =
    (run_file go_library new_no_ops_config remote (nil ∷ []) (file_rows rows)
      (next_call ∷ worker_step true ∷ worker_step true ∷ [])).1

canceler_at_close : at_close.has_canceler ≡ true
unfolding run_file file_rows athenadriver.Config.get_scratch_dir athenadriver.Url.get
    new_no_ops_config athenadriver.Url.put
canceler_at_close = refl

abbrev at_end : FileRows
at_end =
    finish go_library new_no_ops_config remote (nil ∷ [])
      (run_file go_library new_no_ops_config remote (nil ∷ [])
        (close_rows go_library new_no_ops_config remote (nil ∷ []) at_close) (next_call ∷ [])).1
      true true true true

run_file-close_rows_example :
    (at_end.is_body_open ≡ false)
    × (at_end.is_copy_open ≡ false)
    × ((is_creating at_close.worker ≡ true) ⊎ (at_end.is_on_disk ≡ false))
run_file-close_rows_example =
    run_file-close_rows go_library new_no_ops_config remote (nil ∷ []) rows
      (next_call ∷ worker_step true ∷ worker_step true ∷ []) (next_call ∷ []) true true true true
      canceler_at_close
