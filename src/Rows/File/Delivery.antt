-- ===== src/Rows/File/Delivery.antt =====
-- What `Next` delivers of a result file, whatever the goroutine and `Close` do in between.
use athenadriver.Base.{
  ◌+◌, Bool, true, false, List, [], ◌∷◌, Option, none, some, drop, Bytes, ◌≡◌, refl, sym, ap, ◌∙◌,
  arith, inl, inr, if◌then◌else◌, Bool-cases,
}
use athenadriver.Config.{Config, get_scratch_dir}
use athenadriver.Errors.{failed, eof, ◌>>=◌}
use athenadriver.Rows.Convert.{GoValue, Library, convert_record}
use athenadriver.Rows.File.{
  good, body, asleep, creating, FileRows, Remote, FileEvent, next_call, close_call, worker_step,
  next_row, close_rows, work, run_file, file_rows, metadata, scratch_name, after_open,
  open_results_file,
}
use athenadriver.Rows.File.Reading.{
  records_of, answers, IsReading, work-IsReading, next_opened, next_unopened, work_location,
  next_end, next_record, record-IsReading,
}
use athenadriver.Rows.Page.{ResultPage, Rows}
use athenadriver.Rows.Stream.{Record}
use athenadriver.Strings.{trim_slash}

-- Rows as `NewRows` makes them.
record IsFresh (s : FileRows) : Type 0 where
  pub is_unopened : s.results_opened ≡ false
  pub is_reading : s.reached_last_page ≡ false
  pub is_running : s.canceled ≡ false
  pub is_asleep : s.worker ≡ asleep

module _ (library : Library) (config : Config) (remote : Remote) (dest : List GoValue) where
  -- What S3 answers for the location of the rows: an object of a heading and records.
  pub record IsStored (header : Record) (records : List Record) (location : Bytes) : Type 0 where
    pub host : Bytes
    pub path : Bytes
    pub parses : remote.parse_location location ≡ some (host, path)
    pub answers_with :
        remote.get_object host (trim_slash path) ≡ inr (good header ∷ records_of records)

  -- Closed, and no later error can come from the opening.
  record IsOver (location : Bytes) (s : FileRows) : Type 0 where
    pub is_last : s.reached_last_page ≡ true
    pub located : s.output_location ≡ location

  module _ (header : Record) (records : List Record) (location : Bytes)
      (stored : IsStored header records location) where
    -- The state behind the opening.
    abbrev opened : FileRows → FileRows
    opened s =
        let t =
          scratch_name library config remote dest (get_scratch_dir remote.temp_dir config)
            (record s { results_opened = true; has_canceler = true }) in
        record t {
          worker = creating;
          results_file = some body;
          is_body_open = true;
          results = some (records_of records);
          read_count = 1;
        }

    open_stored :
        (s : FileRows)
        → s.output_location ≡ location
        → open_results_file library config remote dest (record s { results_opened = true })
          ≡ (opened s, none)
    unfolding open_results_file
    open_stored s h = rw (h, stored.parses) (simp (stored.answers_with))

    results_opened-opened : (s : FileRows) → (opened s).results_opened ≡ true
    results_opened-opened s = ground arith

    opened_location : (s : FileRows) → (opened s).output_location ≡ s.output_location
    opened_location s = ground arith

    next_first :
        (s : FileRows)
        → s.output_location ≡ location
        → s.results_opened ≡ false
        → next_row library config remote dest s ≡ next_row library config remote dest (opened s)
    next_first s h e =
        next_unopened library config remote dest s e
        ∙ ap (after_open library config remote dest) (open_stored s h)
        ∙ sym (next_opened library config remote dest (opened s) (results_opened-opened s))

    opened-IsReading :
        (s : FileRows)
        → drop 1 remote.saved ≡ records_of records
        → s.reached_last_page ≡ false
        → s.canceled ≡ false
        → IsReading library config remote dest s.result_output records (opened s)
    opened-IsReading s saved e c = ground arith

    opened-IsOver : (s : FileRows) → IsOver location s → IsOver location (opened s)
    opened-IsOver s h = ground arith

    next_opened_over :
        (s : FileRows)
        → IsOver location s
        → s.results_opened ≡ true
        → next_row library config remote dest s ≡ (s, failed eof)
    next_opened_over s h e = next_opened library config remote dest s e ∙ rw (h.is_last) refl

    next-IsOver :
        (s : FileRows)
        → IsOver location s
        → ((next_row library config remote dest s).1 ≡ failed eof)
          × IsOver location (next_row library config remote dest s).0
    next-IsOver s h = elim (Bool-cases s.results_opened) [
      | inl e ↦ rw (next_opened_over s h e) (refl, h)
      | inr e ↦
          rw
            (
              next_first s h.located e,
              next_opened_over (opened s) (opened-IsOver s h) (results_opened-opened s),
            )
            (refl, opened-IsOver s h)
    ]

    work-IsOver :
        (ok : Bool) (s : FileRows)
        → IsOver location s
        → IsOver location (work library config remote dest ok s)
    unfolding work
    work-IsOver ok s h = ground arith

    close-IsOver :
        (s : FileRows)
        → s.output_location ≡ location
        → IsOver location (close_rows library config remote dest s)
    unfolding close_rows
    close-IsOver s h = ground arith

    run-IsOver :
        (output : Option ResultPage) (s : FileRows) (es : List FileEvent)
        → IsOver location s
        → (run_file library config remote dest s es).0
          ≡ answers library config remote dest output [] es
    unfolding run_file answers
    run-IsOver output s [] h = refl
    run-IsOver output s (next_call ∷ es) h =
        let step = next-IsOver s h in
        rw (step.0) (
          ap (λ as'. failed eof ∷ as')
            (run-IsOver output (next_row library config remote dest s).0 es step.1))
    run-IsOver output s (worker_step ok ∷ es) h =
        run-IsOver output (work library config remote dest ok s) es (work-IsOver ok s h)
    run-IsOver output s (close_call ∷ es) h =
        run-IsOver output (close_rows library config remote dest s) es (close-IsOver s h.located)

    run-IsReading :
        (output : Option ResultPage) (rs : List Record) (s : FileRows) (es : List FileEvent)
        → IsReading library config remote dest output rs s
        → s.output_location ≡ location
        → (run_file library config remote dest s es).0
          ≡ answers library config remote dest output rs es
    unfolding run_file answers
    run-IsReading output rs s [] h l = refl
    run-IsReading output [] s (next_call ∷ es) h l =
        rw (next_end library config remote dest output s h)
          (ap (λ as'. failed eof ∷ as') (run-IsReading output [] s es h l))
    run-IsReading output (r ∷ rs) s (next_call ∷ es) h l =
        rw (next_record library config remote dest output r rs s h) (
          ap (λ as'. (metadata output >>= λ cs. convert_record library cs r dest config) ∷ as')
            (run-IsReading output rs
              (record s { results = some (records_of rs); read_count = s.read_count + 1 }) es
              (record-IsReading library config remote dest output r rs s h) l))
    run-IsReading output rs s (worker_step ok ∷ es) h l =
        run-IsReading output rs (work library config remote dest ok s) es
          (work-IsReading library config remote dest ok output rs s h)
          (work_location library config remote dest ok s ∙ l)
    run-IsReading output rs s (close_call ∷ es) h l =
        run-IsOver output (close_rows library config remote dest s) es (close-IsOver s l)

  work_fresh : (ok : Bool) (s : FileRows) → IsFresh s → work library config remote dest ok s ≡ s
  unfolding work
  work_fresh ok s h = rw (h.is_asleep) refl

  run_file-answers :
      (header : Record) (records : List Record) (s : FileRows) (es : List FileEvent)
      → IsFresh s
      → IsStored header records s.output_location
      → remote.saved ≡ good header ∷ records_of records
      → (run_file library config remote dest s es).0
        ≡ answers library config remote dest s.result_output records es
  unfolding run_file answers
  run_file-answers header records s [] h stored saved = refl
  run_file-answers header records s (next_call ∷ es) h stored saved =
      let t = opened header records s.output_location stored s in
      rw (next_first header records s.output_location stored s refl h.is_unopened) (
        run-IsReading header records s.output_location stored s.result_output records t
          (next_call ∷ es)
          (opened-IsReading header records s.output_location stored s (ap (drop 1) saved)
            h.is_reading h.is_running)
          (opened_location header records s.output_location stored s))
  run_file-answers header records s (worker_step ok ∷ es) h stored saved =
      ap (λ t. (run_file library config remote dest t es).0) (work_fresh ok s h)
      ∙ run_file-answers header records s es h stored saved
  run_file-answers header records s (close_call ∷ es) h stored saved =
      run-IsOver header records s.output_location stored s.result_output
        (close_rows library config remote dest s) es
        (close-IsOver header records s.output_location stored s refl)

  file_rows-IsOver :
      (r : Rows) → r.reached_last_page ≡ true → IsOver r.output_location (file_rows r)
  unfolding file_rows
  file_rows-IsOver r e = record { is_last = e; located = refl }

  file_rows-answers :
      (header : Record) (records : List Record) (r : Rows) (es : List FileEvent)
      → r.reached_last_page ≡ false
      → IsStored header records r.output_location
      → remote.saved ≡ good header ∷ records_of records
      → (run_file library config remote dest (file_rows r) es).0
        ≡ answers library config remote dest (some r.result_output) records es
  unfolding file_rows
  file_rows-answers header records r es e stored saved =
      run_file-answers header records (file_rows r) es
        (record { is_unopened = refl; is_reading = e; is_running = refl; is_asleep = refl }) stored
        saved

  -- For the rows that `NewRows` returns, where S3 answers with a heading and records and the saved
  -- copy holds the same, whatever the order of calls of `Next`, calls of `Close` and steps of
  -- the goroutine, which may succeed or fail: the calls of `Next` return what the conversion by the
  -- columns gives for the records behind the heading, in order, none twice and none left out, and
  -- `io.EOF` after the last record and after the first `Close`; if the first page has no row behind
  -- its header, they all return `io.EOF`.
  pub run_file-file_rows :
      (header : Record) (records : List Record) (r : Rows) (es : List FileEvent)
      → IsStored header records r.output_location
      → remote.saved ≡ good header ∷ records_of records
      → (run_file library config remote dest (file_rows r) es).0
        ≡ answers library config remote dest
            (some r.result_output)
            (if r.reached_last_page then [] else records)
            es
  run_file-file_rows header records r es stored saved = elim (Bool-cases r.reached_last_page) [
    | inl e ↦ simp e (
        run-IsOver header records r.output_location stored (some r.result_output) (file_rows r) es
          (file_rows-IsOver r e))
    | inr e ↦ simp e (file_rows-answers header records r es e stored saved)
  ]
