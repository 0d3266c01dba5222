-- ===== src/Cost.antt =====
-- `printCost` and `getCost` of go/utils.go, and the prices of go/cost.go.
-- `Float` is the parameter for Go's float64: the value of a literal, of an integer, the product,
-- and the text with twenty decimals. What `println` and `Printf` write is one line.
use athenadriver.Base.{
  ℕ, ◌*◌, Bool, true, false, Option, none, some, ◌++◌, ltb, ◌==◌, if◌then◌else◌, Bytes, codes,
}
use athenadriver.Decimal.{ℤ, pos, negsuc, format_int}
use athenadriver.Errors.{Outcome, returned, ◌>>=◌, or_panic}

pub record Float (F : Type 0) : Type 0 where
  pub literal : Bytes → F
  pub of_int : ℤ → F
  pub times : F → F → F
  pub format : F → Bytes

-- The part of `athena.GetQueryExecutionOutput` that the cost needs; each pointer may be nil.
pub record CostOutput : Type 0 where
  pub statistics : Option (Option ℤ)
  pub query_execution_id : Option Bytes

abbrev ten_megabytes : ℕ
ten_megabytes = 10 * 1024 * 1024

abbrev is_zero : ℤ → Bool
is_zero (pos n) = n == 0
is_zero (negsuc n) = false

abbrev is_less : ℤ → ℕ → Bool
is_less (pos n) m = ltb n m
is_less (negsuc n) m = true

module _ {F : Type 0} (float : Float F) where
  unfoldable pub get_price_one_byte : F
  get_price_one_byte = float.literal (codes "4.547473508864641e-12")

  unfoldable pub get_price_10mb : F
  unfolding get_price_one_byte
  get_price_10mb = float.times (float.of_int (pos ten_megabytes)) get_price_one_byte

  unfoldable pub get_cost : ℤ → F
  unfolding get_price_10mb
  get_cost n =
      if is_zero n
      then float.literal (codes "0.0")
      else if is_less n ten_megabytes
      then get_price_10mb
      else float.times (float.of_int n) get_price_one_byte

  abbrev no_cost : Bytes
  no_cost = codes "query cost: 0.0 USD, scanned data: 0 B, qid: NA"

  unfoldable pub cost_line : ℤ → Bytes → Bytes
  unfolding get_cost
  cost_line n qid =
      codes "query cost: "
      ++ (float.format (get_cost n)
          ++ (codes " USD, scanned data: " ++ (format_int n ++ (codes " B, qid: " ++ qid))))

  -- Both branches behind a scan that is not empty print the same.
  abbrev scanned_line : Option ℤ → Option Bytes → Outcome Bytes
  scanned_line none id = returned no_cost
  scanned_line (some n) id = or_panic id >>= λ qid. returned (
      if is_zero n
      then codes "query cost: 0.0 USD, scanned data: 0 B, qid: " ++ qid
      else cost_line n qid)

  abbrev execution_line : CostOutput → Option (Option ℤ) → Outcome Bytes
  execution_line o none = returned no_cost
  execution_line o (some scanned) = scanned_line scanned o.query_execution_id

  -- The line; no output, and no execution in it, are the same.
  unfoldable pub print_cost : Option CostOutput → Outcome Bytes
  unfolding cost_line
  print_cost none = returned no_cost
  print_cost (some o) = execution_line o o.statistics
