-- ===== src/Rows/File/Opening.antt =====
-- A result file that cannot be opened.
use athenadriver.Base.{
  Bool, true, false, List, [], ◌∷◌, Option, none, some, Bytes, codes, ◌≡◌, refl, sym, ap, ◌∙◌,
  arith, inl, inr,
}
use mathlib.Core.Path.{subst}
use athenadriver.Config.{Config}
use athenadriver.Errors.{Error, Outcome, failed, eof, message}
use athenadriver.Rows.Convert.{GoValue, Library}
use athenadriver.Rows.File.Reading.{next_opened, next_unopened, work_location}
use athenadriver.Rows.Page.{Rows}
use athenadriver.Rows.File.{
  file_rows, Item, broken, FileRows, Remote, FileEvent, next_call, close_call, worker_step,
  next_row, close_rows, work, run_file, open_results_file, after_open,
}
use athenadriver.Strings.{trim_slash}

-- What can go wrong in front of the first record.
pub data CannotOpen (remote : Remote) (location : Bytes) : Error → Type 0 where
  bad_location :
      remote.parse_location location ≡ none → CannotOpen remote location (message (codes "parse"))
  no_object :
      (host path : Bytes) (e : Error)
      → remote.parse_location location ≡ some (host, path)
      → remote.get_object host (trim_slash path) ≡ inl e
      → CannotOpen remote location e
  no_heading :
      (host path : Bytes)
      → remote.parse_location location ≡ some (host, path)
      → remote.get_object host (trim_slash path) ≡ inr []
      → CannotOpen remote location eof
  bad_heading :
      (host path : Bytes) (e : Error) (items : List Item)
      → remote.parse_location location ≡ some (host, path)
      → remote.get_object host (trim_slash path) ≡ inr (broken e ∷ items)
      → CannotOpen remote location e

-- The first `Next` returns the error, the others `io.EOF`.
unfoldable pub refusals : Error → List FileEvent → List (Outcome (List GoValue))
refusals e [] = []
refusals e (next_call ∷ es) = failed e ∷ refusals eof es
refusals e (worker_step ok ∷ es) = refusals e es
refusals e (close_call ∷ es) = refusals e es

record IsSpent (s : FileRows) : Type 0 where
  pub is_opened : s.results_opened ≡ true
  pub is_last : s.reached_last_page ≡ true

module _ (library : Library) (config : Config) (remote : Remote) (dest : List GoValue) where
  work-IsSpent :
      (ok : Bool) (s : FileRows) → IsSpent s → IsSpent (work library config remote dest ok s)
  unfolding work
  work-IsSpent ok s h = ground arith

  close-IsSpent : (s : FileRows) → IsSpent s → IsSpent (close_rows library config remote dest s)
  unfolding close_rows
  close-IsSpent s h = ground arith

  next_spent : (s : FileRows) → IsSpent s → next_row library config remote dest s ≡ (s, failed eof)
  next_spent s h = next_opened library config remote dest s h.is_opened ∙ rw (h.is_last) refl

  run_spent :
      (s : FileRows) (es : List FileEvent)
      → IsSpent s
      → (run_file library config remote dest s es).0 ≡ refusals eof es
  unfolding run_file refusals
  run_spent s [] h = refl
  run_spent s (next_call ∷ es) h =
      rw (next_spent s h) (ap (λ as'. failed eof ∷ as') (run_spent s es h))
  run_spent s (worker_step ok ∷ es) h =
      run_spent (work library config remote dest ok s) es (work-IsSpent ok s h)
  run_spent s (close_call ∷ es) h =
      run_spent (close_rows library config remote dest s) es (close-IsSpent s h)

  open_refused :
      (s : FileRows) (e : Error)
      → CannotOpen remote s.output_location e
      → (open_results_file library config remote dest s).1 ≡ some e
  unfolding open_results_file
  open_refused s e (bad_location p) = rw p refl
  open_refused s e (no_object host path _ p g) = rw p (rw g refl)
  open_refused s e (no_heading host path p g) = rw p (rw g refl)
  open_refused s e (bad_heading host path _ items p g) = rw p (rw g refl)

  refused-IsSpent :
      (t : FileRows × Option Error) {e : Error}
      → t.0.results_opened ≡ true
      → t.1 ≡ some e
      → ((after_open library config remote dest t).1 ≡ failed e)
        × IsSpent (after_open library config remote dest t).0
  refused-IsSpent (s, none) h p = cc
  refused-IsSpent (s, some e) h p = (cc, record { is_opened = h; is_last = refl })

  open_opened :
      (s : FileRows)
      → s.results_opened ≡ true
      → (open_results_file library config remote dest s).0.results_opened ≡ true
  unfolding open_results_file
  open_opened s h = ground arith

  work_opened :
      (ok : Bool) (s : FileRows)
      → (work library config remote dest ok s).results_opened ≡ s.results_opened
  unfolding work
  work_opened ok s = ground arith

  close_kept :
      (s : FileRows)
      → ((close_rows library config remote dest s).results_opened ≡ s.results_opened)
        × ((close_rows library config remote dest s).output_location ≡ s.output_location)
  unfolding close_rows
  close_kept s = ground arith

  unopened_refusals :
      (s : FileRows) (e : Error) (es : List FileEvent)
      → s.results_opened ≡ false
      → CannotOpen remote s.output_location e
      → (run_file library config remote dest s es).0 ≡ refusals e es
  unfolding run_file refusals
  unopened_refusals s e [] h c = refl
  unopened_refusals s e (next_call ∷ es) h c =
      let opening' =
        open_results_file library config remote dest (record s { results_opened = true }) in
      let step =
        refused-IsSpent opening' (open_opened (record s { results_opened = true }) refl)
          (open_refused (record s { results_opened = true }) e c) in
      rw (next_unopened library config remote dest s h, step.0)
        (ap (λ as'. failed e ∷ as')
          (run_spent (after_open library config remote dest opening').0 es step.1))
  unopened_refusals s e (worker_step ok ∷ es) h c =
      let t : FileRows = work library config remote dest ok s in
      unopened_refusals t e es (work_opened ok s ∙ h)
        (subst (λ l. CannotOpen remote l e) (sym (work_location library config remote dest ok s)) c)
  unopened_refusals s e (close_call ∷ es) h c =
      let t : FileRows = close_rows library config remote dest s in
      unopened_refusals t e es ((close_kept s).0 ∙ h)
        (subst (λ l. CannotOpen remote l e) (sym (close_kept s).1) c)

  -- Where the result file of the rows that `NewRows` returns cannot be opened, for want of a
  -- location that parses, of an object, or of a heading that is read, the first call of `Next`
  -- returns that error, and every later call `io.EOF`, whatever calls of `Close` and steps of the
  -- goroutine stand between them.
  pub run_file-refusals :
      (r : Rows) (e : Error) (es : List FileEvent)
      → CannotOpen remote r.output_location e
      → (run_file library config remote dest (file_rows r) es).0 ≡ refusals e es
  unfolding file_rows
  run_file-refusals r e es c = unopened_refusals (file_rows r) e es refl c
