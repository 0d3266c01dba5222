-- ===== src/Rows/File/Reading.antt =====
-- The rows while records are read: what `Next` and the goroutine's steps keep, and the list of
-- answers that they are compared with.
use athenadriver.Base.{
  ◌+◌, Bool, true, false, List, [], ◌∷◌, map, Option, none, some, drop, drop-suc, ◌≡◌, refl, arith,
}
use native.Mathlib.Numerals.{add-one}
use athenadriver.Config.{Config}
use athenadriver.Errors.{Outcome, failed, eof, ◌>>=◌}
use athenadriver.Rows.Convert.{GoValue, Library, convert_record}
use athenadriver.Rows.File.{
  Item, good, FileRows, Remote, FileEvent, next_call, close_call, worker_step, next_row, work,
  metadata, after_open, open_results_file,
}
use athenadriver.Rows.Page.{ResultPage}
use athenadriver.Rows.Stream.{Record}

abbrev pub records_of : List Record → List Item
records_of = map good

module _ (library : Library) (config : Config) (remote : Remote) (dest : List GoValue) where
  -- The specification: a list of the records that are left, which `Close` empties.
  unfoldable pub answers :
      Option ResultPage → List Record → List FileEvent → List (Outcome (List GoValue))
  answers output rs [] = []
  answers output [] (next_call ∷ es) = failed eof ∷ answers output [] es
  answers output (r ∷ rs) (next_call ∷ es) =
      (metadata output >>= λ cs. convert_record library cs r dest config) ∷ answers output rs es
  answers output rs (worker_step ok ∷ es) = answers output rs es
  answers output rs (close_call ∷ es) = answers output [] es

  -- The reader stands in front of the records that are left, and so does the copy behind as many
  -- as were counted.
  pub record IsReading (output : Option ResultPage) (rs : List Record) (s : FileRows) : Type 0 where
    pub results_at : s.results ≡ some (records_of rs)
    pub copy_at : drop s.read_count remote.saved ≡ records_of rs
    pub output_at : s.result_output ≡ output
    pub is_open : s.reached_last_page ≡ false
    pub is_opened : s.results_opened ≡ true
    pub not_canceled : s.canceled ≡ false

  pub next_opened :
      (s : FileRows)
      → s.results_opened ≡ true
      → next_row library config remote dest s ≡ after_open library config remote dest (s, none)
  unfolding next_row
  next_opened s e = rw e refl

  pub next_unopened :
      (s : FileRows)
      → s.results_opened ≡ false
      → next_row library config remote dest s
        ≡ after_open library config remote dest
            (open_results_file library config remote dest (record s { results_opened = true }))
  unfolding next_row open_results_file
  next_unopened s e = rw e refl

  pub work-IsReading :
      (ok : Bool) (output : Option ResultPage) (rs : List Record) (s : FileRows)
      → IsReading output rs s
      → IsReading output rs (work library config remote dest ok s)
  unfolding work
  work-IsReading ok output rs s h = ground arith

  pub work_location :
      (ok : Bool) (s : FileRows)
      → (work library config remote dest ok s).output_location ≡ s.output_location
  unfolding work
  work_location ok s = ground arith

  pub next_end :
      (output : Option ResultPage) (s : FileRows)
      → IsReading output [] s
      → next_row library config remote dest s ≡ (s, failed eof)
  unfolding next_row
  next_end output s h = rw (h.is_opened) (simp (h.is_open, h.results_at))

  pub next_record :
      (output : Option ResultPage) (r : Record) (rs : List Record) (s : FileRows)
      → IsReading output (r ∷ rs) s
      → next_row library config remote dest s ≡ (
        record s { results = some (records_of rs); read_count = s.read_count + 1 },
        metadata output >>= λ cs. convert_record library cs r dest config,
      )
  unfolding next_row
  next_record output r rs s h = ground arith

  pub record-IsReading :
      (output : Option ResultPage) (r : Record) (rs : List Record) (s : FileRows)
      → IsReading output (r ∷ rs) s
      → IsReading output rs
          (record s { results = some (records_of rs); read_count = s.read_count + 1 })
  record-IsReading output r rs s h = record {
    results_at = refl;
    copy_at = rw (add-one s.read_count) (drop-suc s.read_count remote.saved h.copy_at);
    output_at = h.output_at;
    is_open = h.is_open;
    is_opened = h.is_opened;
    not_canceled = h.not_canceled;
  }
