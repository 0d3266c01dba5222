-- ===== src/Csv/Reader.antt =====
-- A reader of comma-separated values after RFC 4180, with lines that end in a line feed. It stands
-- for no code of the repository: it says what the texts of go/utils.go mean.
use athenadriver.Base.{ℕ, List, [], ◌∷◌, Option, none, some, ◌==◌, if◌then◌else◌, Bytes}
use athenadriver.Csv.{Record}

-- Before a record, before another field of it, in a field, in quotes, and behind the closing quote.
pub data Place : Type 0 where
  fresh start plain quoted closed : Place

-- What a byte does to the records that are read behind it: it belongs to the first field, it stands
-- before a field or a record, or it belongs to the syntax.
pub data Action : Type 0 where
  push : ℕ → Action
  field line skip : Action

abbrev separator : ℕ → Option (Place × Action) → Option (Place × Action)
separator c other =
    if c == b',' then some (start, field) else if c == b'\n' then some (fresh, line) else other

abbrev at_start : ℕ → Option (Place × Action)
at_start c = separator c (if c == b'"' then some (quoted, skip) else some (plain, push c))

unfoldable pub step : Place → ℕ → Option (Place × Action)
step fresh c = at_start c
step start c = at_start c
step plain c = separator c (if c == b'"' then none else some (plain, push c))
step quoted c = if c == b'"' then some (closed, skip) else some (quoted, push c)
step closed c = separator c (if c == b'"' then some (quoted, push c) else none)

unfoldable pub act : Action → List Record → Option (List Record)
act (push c) ((s ∷ ss) ∷ rs) = some (((c ∷ s) ∷ ss) ∷ rs)
act (push c) _ = none
act field (ss ∷ rs) = some (([] ∷ ss) ∷ rs)
act field [] = none
act line rs = some (([] ∷ []) ∷ rs)
act skip rs = some rs

abbrev pub act_on : Action → Option (List Record) → Option (List Record)
unfolding act
act_on a none = none
act_on a (some rs) = act a rs

unfoldable pub read_csv : Place → Bytes → Option (List Record)
unfolding step act
read_csv fresh [] = some []
read_csv _ [] = none
read_csv p (c ∷ s) = elim (step p c) [ none ↦ none | some (q, a) ↦ act_on a (read_csv q s) ]
