-- ===== src/Rows/Stream.antt =====
-- `Next`, `openResults` and `Close` of go/rows.go: the records of the result file are first read
-- from the body of the download, while a goroutine saves the file to disk; when it is done, it
-- puts a reader of the saved file in place of the body, and skips what was already read. The
-- mutex makes each `Next`, the swap and the closing of the reader one step.
-- A record is a list of texts. What both readers give are the records of one object.
pub mod Order
use athenadriver.Base.{
  ℕ, zero, suc, ◌+◌, Bool, true, false, List, [], ◌∷◌, ◌++◌, Option, none, some, if◌then◌else◌,
  Bytes, drop,
}
use athenadriver.Errors.{Error, eof}

abbrev pub Record : Type 0
Record = List Bytes

-- `results` is the part of the reader that is still unread, none after `Close`.
pub record Stream : Type 0 where
  pub reached_last_page : Bool
  pub read_count : ℕ
  pub results : Option (List Record)
  pub canceled : Bool
  pub saved : Bool

abbrev after_header : Bool → List Record → Stream × Option Error
after_header last [] = (
  record {
    reached_last_page = last;
    read_count = 0;
    results = some [];
    canceled = false;
    saved = false;
  },
  some eof,
)
after_header last (header ∷ records) = (
  record {
    reached_last_page = last;
    read_count = 1;
    results = some records;
    canceled = false;
    saved = false;
  },
  none,
)

-- `openResults`, whose download answers with the records of the object: the first is dropped.
unfoldable pub open_results : Bool → List Record → Stream × Option Error
open_results last object = after_header last object

-- The part of `Next` behind the opening: the record that is read, or the error.
abbrev read : Stream → Option (List Record) → Stream × Option Record
read s none = (s, none)
read s (some []) = (s, none)
read s (some (r ∷ rs)) = (record s { read_count = s.read_count + 1; results = some rs }, some r)

-- No record stands for `io.EOF`.
unfoldable pub next : Stream → Stream × Option Record
next s = if s.reached_last_page then (s, none) else read s s.results

-- The goroutine's last step, with a fresh reader of the saved object.
unfoldable pub swap : List Record → Stream → Stream
swap object s =
    if s.canceled then s else record s { results = some (drop s.read_count object); saved = true }

unfoldable pub close : Stream → Stream
close s = record s { reached_last_page = true; canceled = true; results = none }

-- What the driver's user and the goroutine do, in the order of the mutex.
pub data Event : Type 0 where
  next_event swap_event close_event : Event

abbrev deliver : Option Record → List Record → List Record
deliver none rs = rs
deliver (some r) rs = r ∷ rs

-- The records that the calls of `Next` return, and the state at the end.
unfoldable pub run : List Record → Stream → List Event → List Record × Stream
unfolding next swap close
run object s [] = ([], s)
run object s (next_event ∷ es) =
    let rest = run object (next s).0 es in (deliver (next s).1 rest.0, rest.1)
run object s (swap_event ∷ es) = run object (swap object s) es
run object s (close_event ∷ es) = run object (close s) es
