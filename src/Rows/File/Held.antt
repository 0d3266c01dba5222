-- ===== src/Rows/File/Held.antt =====
-- Which readers and files can be open: each has something that will close it.
use athenadriver.Base.{
  Bool, true, false, List, [], ◌∷◌, Option, none, some, ◌≡◌, refl, arith, ◌⊎◌, inl, inr, Bool-cases,
}
use athenadriver.Config.{Config, is_empty}
use athenadriver.Errors.{Error}
use athenadriver.Rows.Convert.{GoValue, Library}
use athenadriver.Rows.File.Reading.{next_opened, next_unopened}
use athenadriver.Rows.Page.{Rows}
use athenadriver.Rows.File.{
  Item, body, copy, Worker, asleep, creating, downloading, opening, swapping, ended, FileRows,
  Remote, FileEvent, next_call, close_call, worker_step, next_row, close_rows, work, work_at,
  run_file, file_rows, open_results_file, after_open, read_next,
}

-- An open reader is the one in use, or the copy that is about to be; a file on the disk has a name.
pub record IsHeld (s : FileRows) : Type 0 where
  pub has_canceler_at : s.has_canceler ≡ s.results_opened
  pub body_held : (s.is_body_open ≡ false) ⊎ (s.results_file ≡ some body)
  pub copy_held : (s.is_copy_open ≡ false) ⊎ (s.worker ≡ swapping) ⊎ (s.results_file ≡ some copy)
  pub disk_held : (s.is_on_disk ≡ false) ⊎ (is_empty s.results_filename ≡ false)
  pub unopened_held :
      (s.results_opened ≡ true)
      ⊎ ((s.worker ≡ asleep)
          × (s.is_copy_open ≡ false)
          × (s.is_on_disk ≡ false)
          × (s.is_body_open ≡ false))

pub file_rows-IsHeld : (r : Rows) → IsHeld (file_rows r)
unfolding file_rows
file_rows-IsHeld r = record {
  has_canceler_at = refl;
  body_held = inl refl;
  copy_held = inl refl;
  disk_held = inl refl;
  unopened_held = inr (refl, refl, refl, refl);
}

module _ (library : Library) (config : Config) (remote : Remote) (dest : List GoValue) where
  work_at-IsHeld :
      (w : Worker) (ok : Bool) (s : FileRows)
      → s.worker ≡ w
      → IsHeld s
      → IsHeld (work_at library config remote dest w ok s)
  work_at-IsHeld asleep ok s e h = h
  work_at-IsHeld creating ok s e h = ground arith
  work_at-IsHeld downloading ok s e h = ground arith
  work_at-IsHeld opening ok s e h = ground arith
  work_at-IsHeld swapping ok s e h = ground arith
  work_at-IsHeld ended ok s e h = h

  open-IsHeld :
      (s : FileRows)
      → s.results_opened ≡ false
      → IsHeld s
      → IsHeld (open_results_file library config remote dest (record s { results_opened = true })).0
  unfolding open_results_file
  open-IsHeld s e h = ground arith

  read_next-IsHeld :
      (s : FileRows) (r : Option (List Item))
      → IsHeld s
      → IsHeld (read_next library config remote dest s r).0
  read_next-IsHeld s r h = ground arith

  close-IsHeld : (s : FileRows) → IsHeld s → IsHeld (close_rows library config remote dest s)
  unfolding close_rows
  close-IsHeld s h = ground arith

  after_open-IsHeld :
      (t : FileRows × Option Error)
      → IsHeld t.0
      → IsHeld (after_open library config remote dest t).0
  after_open-IsHeld (s, some e) h = ground arith
  after_open-IsHeld (s, none) h = elim (Bool-cases s.reached_last_page) [
    | inl e ↦ simp e h
    | inr e ↦ simp e (read_next-IsHeld s s.results h)
  ]

  next-IsHeld : (s : FileRows) → IsHeld s → IsHeld (next_row library config remote dest s).0
  next-IsHeld s h = elim (Bool-cases s.results_opened) [
    | inl e ↦ rw (next_opened library config remote dest s e) (after_open-IsHeld (s, none) h)
    | inr e ↦ rw (next_unopened library config remote dest s e) (
        after_open-IsHeld
          (open_results_file library config remote dest (record s { results_opened = true }))
          (open-IsHeld s e h))
  ]

  work-IsHeld :
      (ok : Bool) (s : FileRows) → IsHeld s → IsHeld (work library config remote dest ok s)
  unfolding work
  work-IsHeld ok s h = work_at-IsHeld s.worker ok s refl h

  pub run-IsHeld :
      (s : FileRows) (es : List FileEvent)
      → IsHeld s
      → IsHeld (run_file library config remote dest s es).1
  unfolding run_file
  run-IsHeld s [] h = h
  run-IsHeld s (next_call ∷ es) h =
      run-IsHeld (next_row library config remote dest s).0 es (next-IsHeld s h)
  run-IsHeld s (worker_step ok ∷ es) h =
      run-IsHeld (work library config remote dest ok s) es (work-IsHeld ok s h)
  run-IsHeld s (close_call ∷ es) h =
      run-IsHeld (close_rows library config remote dest s) es (close-IsHeld s h)
