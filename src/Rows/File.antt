-- ===== src/Rows/File.antt =====
-- `Next`, `openResults` and `Close` of go/rows.go in full: the first `Next` opens the result file,
-- as the body of an answer of S3, and starts a goroutine that saves the file in the scratch
-- directory and then puts a reader of the copy in place of the body. The mutex and the file system
-- make each of the goroutine's actions one step. Stream is the view of the readers alone.
-- `Remote` is the parameter for net/url, S3, the file system and the CSV readers: the host and path
-- of a location, the records of the body and of the copy, each of which may be an error, the
-- directory for temporary files, and `filepath.Join`.
pub mod Delivery
pub mod Held
pub mod Opening
pub mod Reading
pub mod Release
use athenadriver.Base.{
  ℕ, ◌+◌, Bool, true, false, not, ◌&&◌, ◌||◌, List, [], ◌∷◌, Option, none, some, if◌then◌else◌,
  Bytes, codes, drop, ◌⊎◌, inl, inr,
}
use athenadriver.Config.{Config, is_empty, get_scratch_dir}
use athenadriver.Errors.{Error, Outcome, returned, failed, panics, eof, message, ◌>>=◌}
use athenadriver.Rows.Convert.{GoValue, Library, convert_record}
use athenadriver.Rows.Page.{ColumnInfo, ResultPage, Rows}
use athenadriver.Rows.Stream.{Record}
use athenadriver.Strings.{trim_slash}

-- What one `Read` of a CSV reader gives.
pub data Item : Type 0 where
  good : Record → Item
  broken : Error → Item

pub data Source : Type 0 where
  body copy : Source

-- The next action of the goroutine.
pub data Worker : Type 0 where
  asleep creating downloading opening swapping ended : Worker

-- The fields of `Rows`, and behind them what is open and what stands on the disk.
pub record FileRows : Type 0 where
  pub query_id : Bytes
  pub output_location : Bytes
  pub result_output : Option ResultPage
  pub reached_last_page : Bool
  pub results_opened : Bool
  pub has_canceler : Bool
  pub canceled : Bool
  pub read_count : ℕ
  pub results : Option (List Item)
  pub results_file : Option Source
  pub results_filename : Bytes
  pub worker : Worker
  pub is_body_open : Bool
  pub is_copy_open : Bool
  pub is_on_disk : Bool

pub record Remote : Type 0 where
  pub parse_location : Bytes → Option (Bytes × Bytes)
  pub get_object : Bytes → Bytes → Error ⊎ List Item
  pub saved : List Item
  pub temp_dir : Bytes
  pub join : Bytes → Bytes → Bytes

-- What the driver's user and the goroutine do, in the order of the mutex.
pub data FileEvent : Type 0 where
  next_call close_call : FileEvent
  worker_step : Bool → FileEvent

-- The `Rows` that `NewRows` returns: nothing is opened.
unfoldable pub file_rows : Rows → FileRows
file_rows r = record {
  query_id = r.query_id;
  output_location = r.output_location;
  result_output = some r.result_output;
  reached_last_page = r.reached_last_page;
  results_opened = false;
  has_canceler = false;
  canceled = false;
  read_count = 0;
  results = none;
  results_file = none;
  results_filename = [];
  worker = asleep;
  is_body_open = false;
  is_copy_open = false;
  is_on_disk = false;
}

-- `FetchRuntimeStatistics`, over the call of the client.
unfoldable pub fetch_runtime_statistics {ℓ} :
    {A : Type ℓ} → (Bytes → Outcome A) → FileRows → Outcome A
fetch_runtime_statistics get_query_runtime_statistics s =
    get_query_runtime_statistics s.query_id >>= λ statistics. returned statistics

abbrev close_source : Option Source → FileRows → FileRows
close_source none s = s
close_source (some body) s = record s { is_body_open = false }
close_source (some copy) s = record s { is_copy_open = false }

-- The metadata is dereferenced.
abbrev metadata : Option ResultPage → Outcome (List ColumnInfo)
metadata none = panics
metadata (some p) = elim p.columns [
  | none ↦ panics
  | some none ↦ returned []
  | some (some cs) ↦ returned cs
]

module _ (library : Library) (config : Config) (remote : Remote) (dest : List GoValue) where
  abbrev scratch_name : Bytes → FileRows → FileRows
  scratch_name dir s =
      if not (is_empty dir) then record s { results_filename = remote.join dir s.query_id } else s

  -- Burns the headings off.
  abbrev read_header : FileRows → List Item → FileRows × Option Error
  read_header s [] = (record s { results = some [] }, some eof)
  read_header s (broken e ∷ items) = (record s { results = some items }, some e)
  read_header s (good r ∷ items) = (record s { results = some items; read_count = 1 }, none)

  -- Behind the answer of `GetObject`.
  abbrev read_answer : FileRows → Error ⊎ List Item → FileRows × Option Error
  read_answer s (inl e) = (record s { canceled = true }, some e)
  read_answer s (inr items) =
      let t = scratch_name (get_scratch_dir remote.temp_dir config) s in
      read_header (record t { worker = creating; results_file = some body; is_body_open = true })
        items

  abbrev at_location : FileRows → Option (Bytes × Bytes) → FileRows × Option Error
  at_location s none = (s, some (message (codes "parse")))
  at_location s (some (host, path)) = read_answer s (remote.get_object host (trim_slash path))

  unfoldable pub open_results_file : FileRows → FileRows × Option Error
  open_results_file s =
      at_location (record s { has_canceler = true }) (remote.parse_location s.output_location)

  -- A `Read` and the conversion; a nil reader panics.
  abbrev read_next : FileRows → Option (List Item) → FileRows × Outcome (List GoValue)
  read_next s none = (s, panics)
  read_next s (some []) = (s, failed eof)
  read_next s (some (broken e ∷ items)) = (record s { results = some items }, failed e)
  read_next s (some (good r ∷ items)) = (
    record s { results = some items; read_count = s.read_count + 1 },
    metadata s.result_output >>= λ cs. convert_record library cs r dest config,
  )

  abbrev after_open : FileRows × Option Error → FileRows × Outcome (List GoValue)
  after_open (s, some e) = (record s { reached_last_page = true }, failed e)
  after_open (s, none) = if s.reached_last_page then (s, failed eof) else read_next s s.results

  abbrev open_once : FileRows → FileRows × Option Error
  unfolding open_results_file
  open_once s =
      if s.results_opened then (s, none) else open_results_file (record s { results_opened = true })

  unfoldable pub next_row : FileRows → FileRows × Outcome (List GoValue)
  unfolding convert_record open_once
  next_row s = after_open (open_once s)

  abbrev drop_output : Option ResultPage → Option ResultPage
  drop_output none = none
  drop_output (some p) = elim p.next_token [ none ↦ some p | some t ↦ none ]

  -- `os.Remove`, whose error is not read; it is taken to succeed.
  abbrev remove_file : FileRows → FileRows
  remove_file s = if not (is_empty s.results_filename) then record s { is_on_disk = false } else s

  abbrev close_reader : Option Source → FileRows → FileRows
  close_reader none s = s
  close_reader (some f) s = record (close_source (some f) s) { results = none }

  unfoldable pub close_rows : FileRows → FileRows
  close_rows s =
      let t = record s {
        reached_last_page = true;
        canceled = s.canceled || s.has_canceler;
        result_output = drop_output s.result_output;
      } in
      remove_file (close_reader t.results_file t)

  abbrev swap_reader : FileRows → FileRows
  swap_reader s =
      let t = close_source s.results_file s in
      record t {
        results_file = some copy;
        results = some (drop t.read_count remote.saved);
        worker = ended;
      }

  -- One step of the goroutine, whose call of the system or of S3 succeeds or not. A file that was
  -- removed cannot be opened.
  abbrev work_at : Worker → Bool → FileRows → FileRows
  work_at asleep ok s = s
  work_at creating ok s =
      if is_empty s.results_filename || not ok
      then record s { worker = ended }
      else record s { worker = downloading; is_on_disk = true }
  work_at downloading ok s = record s { worker = if ok then opening else ended }
  work_at opening ok s =
      if ok && s.is_on_disk
      then record s { worker = swapping; is_copy_open = true }
      else record s { worker = ended }
  work_at swapping ok s =
      if s.canceled then record s { worker = ended; is_copy_open = false } else swap_reader s
  work_at ended ok s = s

  unfoldable pub work : Bool → FileRows → FileRows
  work ok s = work_at s.worker ok s

  -- What the calls of `Next` return, and the state at the end.
  unfoldable pub run_file : FileRows → List FileEvent → List (Outcome (List GoValue)) × FileRows
  unfolding next_row close_rows work
  run_file s [] = ([], s)
  run_file s (next_call ∷ es) =
      let rest = run_file (next_row s).0 es in ((next_row s).1 ∷ rest.0, rest.1)
  run_file s (worker_step ok ∷ es) = run_file (work ok s) es
  run_file s (close_call ∷ es) = run_file (close_rows s) es
