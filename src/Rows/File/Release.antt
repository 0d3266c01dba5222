-- ===== src/Rows/File/Release.antt =====
-- What `Close` gives back: the readers, and the scratch file.
use athenadriver.Base.{
  ℕ, ◌+◌, ◌≤◌, Bool, true, false, List, [], ◌∷◌, ◌≡◌, refl, ◌∙◌, arith, ◌⊎◌, inl, inr, Bool-cases,
}
use athenadriver.Config.{Config}
use athenadriver.Errors.{failed, eof}
use athenadriver.Rows.Convert.{GoValue, Library}
use athenadriver.Rows.File.Held.{IsHeld, file_rows-IsHeld, run-IsHeld}
use athenadriver.Rows.File.Reading.{next_opened}
use athenadriver.Rows.Page.{Rows}
use athenadriver.Rows.File.{
  Worker, asleep, creating, downloading, opening, swapping, ended, FileRows, Remote, FileEvent,
  next_call, close_call, worker_step, next_row, close_rows, work, work_at, run_file, file_rows,
}

-- The steps that are left to the goroutine.
abbrev left : Worker → ℕ
left asleep = 0
left creating = 4
left downloading = 3
left opening = 2
left swapping = 1
left ended = 0

abbrev pub is_creating : Worker → Bool
is_creating asleep = false
is_creating creating = true
is_creating downloading = false
is_creating opening = false
is_creating swapping = false
is_creating ended = false

-- Closed after the opening: the body is closed, and the copy only open where the goroutine is
-- about to close it.
record IsReleased (s : FileRows) : Type 0 where
  pub is_opened : s.results_opened ≡ true
  pub is_last : s.reached_last_page ≡ true
  pub is_canceled : s.canceled ≡ true
  pub body_closed : s.is_body_open ≡ false
  pub copy_released : (s.is_copy_open ≡ false) ⊎ (s.worker ≡ swapping)

-- The scratch file is not there, and nothing will make it.
record IsGone (s : FileRows) : Type 0 where
  pub not_on_disk : s.is_on_disk ≡ false
  pub not_creating : is_creating s.worker ≡ false

left_four : (w : Worker) → left w ≤ 4
left_four asleep = omega arith
left_four creating = omega arith
left_four downloading = omega arith
left_four opening = omega arith
left_four swapping = omega arith
left_four ended = omega arith

module _ (library : Library) (config : Config) (remote : Remote) (dest : List GoValue) where
  close-IsReleased :
      (s : FileRows)
      → IsHeld s
      → s.has_canceler ≡ true
      → IsReleased (close_rows library config remote dest s)
  unfolding close_rows
  close-IsReleased s h e = ground arith

  work_at-IsReleased :
      (w : Worker) (ok : Bool) (s : FileRows)
      → s.worker ≡ w
      → IsReleased s
      → IsReleased (work_at library config remote dest w ok s)
  work_at-IsReleased asleep ok s e h = h
  work_at-IsReleased creating ok s e h = ground arith
  work_at-IsReleased downloading ok s e h = ground arith
  work_at-IsReleased opening ok s e h = ground arith
  work_at-IsReleased swapping ok s e h = ground arith
  work_at-IsReleased ended ok s e h = h

  close_again : (s : FileRows) → IsReleased s → IsReleased (close_rows library config remote dest s)
  unfolding close_rows
  close_again s h = ground arith

  next_released :
      (s : FileRows) → IsReleased s → next_row library config remote dest s ≡ (s, failed eof)
  next_released s h = next_opened library config remote dest s h.is_opened ∙ rw (h.is_last) refl

  run-IsReleased :
      (s : FileRows) (es : List FileEvent)
      → IsReleased s
      → IsReleased (run_file library config remote dest s es).1
  unfolding run_file work
  run-IsReleased s [] h = h
  run-IsReleased s (next_call ∷ es) h = rw (next_released s h) (run-IsReleased s es h)
  run-IsReleased s (worker_step ok ∷ es) h =
      run-IsReleased (work library config remote dest ok s) es
        (work_at-IsReleased s.worker ok s refl h)
  run-IsReleased s (close_call ∷ es) h =
      run-IsReleased (close_rows library config remote dest s) es (close_again s h)

  left-work_at :
      (w : Worker) (ok : Bool) (s : FileRows) (n : ℕ)
      → s.worker ≡ w
      → left w ≤ n + 1
      → left (work_at library config remote dest w ok s).worker ≤ n
  left-work_at asleep ok s n e h = ground arith
  left-work_at creating ok s n e h = ground arith
  left-work_at downloading ok s n e h = ground arith
  left-work_at opening ok s n e h = ground arith
  left-work_at swapping ok s n e h = ground arith
  left-work_at ended ok s n e h = ground arith

  -- Four steps are enough for the goroutine to end.
  abbrev pub finish : FileRows → Bool → Bool → Bool → Bool → FileRows
  finish s a b c d =
      (run_file library config remote dest s
        (worker_step a ∷ worker_step b ∷ worker_step c ∷ worker_step d ∷ [])).1

  left-work :
      (ok : Bool) (s : FileRows) (n : ℕ)
      → left s.worker ≤ n + 1
      → left (work library config remote dest ok s).worker ≤ n
  unfolding work
  left-work ok s n h = left-work_at s.worker ok s n refl h

  left-finish : (s : FileRows) (a b c d : Bool) → left (finish s a b c d).worker ≤ 0
  unfolding run_file
  left-finish s a b c d =
      let s1 = work library config remote dest a s in
      let s2 = work library config remote dest b s1 in
      let s3 = work library config remote dest c s2 in
      left-work d s3 0 (left-work c s2 1 (left-work b s1 2 (left-work a s 3 (left_four s.worker))))

  work-IsGone :
      (ok : Bool) (s : FileRows) → IsGone s → IsGone (work library config remote dest ok s)
  unfolding work
  work-IsGone ok s h = ground arith

  close-IsGone :
      (s : FileRows)
      → IsHeld s
      → is_creating s.worker ≡ false
      → IsGone (close_rows library config remote dest s)
  unfolding close_rows
  close-IsGone s h e = ground arith

  closed-IsGone : (s : FileRows) → IsGone s → IsGone (close_rows library config remote dest s)
  unfolding close_rows
  closed-IsGone s h = ground arith

  run-IsGone :
      (s : FileRows) (es : List FileEvent)
      → IsReleased s
      → IsGone s
      → IsGone (run_file library config remote dest s es).1
  unfolding run_file work
  run-IsGone s [] h g = g
  run-IsGone s (next_call ∷ es) h g = rw (next_released s h) (run-IsGone s es h g)
  run-IsGone s (worker_step ok ∷ es) h g =
      run-IsGone (work library config remote dest ok s) es (work_at-IsReleased s.worker ok s refl h)
        (work-IsGone ok s g)
  run-IsGone s (close_call ∷ es) h g =
      run-IsGone (close_rows library config remote dest s) es (close_again s h) (closed-IsGone s g)

  released_closed :
      (s : FileRows)
      → IsReleased s
      → left s.worker ≤ 0
      → (s.is_body_open ≡ false) × (s.is_copy_open ≡ false)
  released_closed s h l = ground arith

  -- For the rows that `NewRows` returns, whatever happened to them before `Close` was called, once
  -- the first `Next` had made its context, and whatever happens after it: when the goroutine has
  -- made the four steps it may still have, each of which may succeed or fail, the body of the
  -- download and the reader of the copy are closed. The scratch file is then not on the disk,
  -- unless at `Close` the goroutine was still in front of making it.
  pub run_file-close_rows :
      (r : Rows) (es later : List FileEvent) (a b c d : Bool)
      → (run_file library config remote dest (file_rows r) es).1.has_canceler ≡ true
      → let t = (run_file library config remote dest (file_rows r) es).1 in
        let u =
          finish
            (run_file library config remote dest (close_rows library config remote dest t) later).1
            a
            b
            c
            d in
        (u.is_body_open ≡ false)
        × (u.is_copy_open ≡ false)
        × ((is_creating t.worker ≡ true) ⊎ (u.is_on_disk ≡ false))
  run_file-close_rows r es later a b c d e =
      let t : FileRows = (run_file library config remote dest (file_rows r) es).1 in
      let held = run-IsHeld library config remote dest (file_rows r) es (file_rows-IsHeld r) in
      let v : FileRows =
        (run_file library config remote dest (close_rows library config remote dest t) later).1 in
      let released =
        run-IsReleased (close_rows library config remote dest t) later
          (close-IsReleased t held e) in
      let steps = worker_step a ∷ worker_step b ∷ worker_step c ∷ worker_step d ∷ [] in
      let closed =
        released_closed (finish v a b c d) (run-IsReleased v steps released)
          (left-finish v a b c d) in
      (
        closed.0,
        closed.1,
        elim (Bool-cases (is_creating t.worker)) [
          | inl making ↦ inl making
          | inr made ↦
              inr
                (run-IsGone v steps released (
                  run-IsGone (close_rows library config remote dest t) later
                    (close-IsReleased t held e) (close-IsGone t held made))).not_on_disk
        ],
      )
