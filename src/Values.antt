-- ===== src/Values.antt =====
-- Query arguments: `driver.Value`, `driver.NamedValue`, and `namedValueToValue` and
-- `valueToNamedValue` of go/utils.go.
use athenadriver.Base.{ℕ, ◌+◌, Bool, List, [], ◌∷◌, Bytes, ◌≡◌, refl, ap}
use athenadriver.Decimal.{ℤ}
use athenadriver.GoTime.{Time}

-- The dynamic types that the driver's type switches name; `other` is any other type. A float64 is
-- its bit pattern.
pub data Value : Type 0 where
  null : Value
  int64 : ℤ → Value
  uint64 : ℕ → Value
  float64 : ℕ → Value
  boolean : Bool → Value
  time : Time → Value
  bytes : Bytes → Value
  text : Bytes → Value
  other : Value

pub record NamedValue : Type 0 where
  pub name : Bytes
  pub ordinal : ℕ
  pub value : Value

unfoldable pub named_value_to_value : List NamedValue → List Value
named_value_to_value [] = []
named_value_to_value (p ∷ ps) = p.value ∷ named_value_to_value ps

value_to_named_from : ℕ → List Value → List NamedValue
value_to_named_from i [] = []
value_to_named_from i (a ∷ args) =
    record { name = []; ordinal = i + 1; value = a } ∷ value_to_named_from (i + 1) args

unfoldable pub value_to_named_value : List Value → List NamedValue
unfolding value_to_named_from
value_to_named_value args = value_to_named_from 0 args

named-named_from :
    (i : ℕ) (args : List Value) → named_value_to_value (value_to_named_from i args) ≡ args
unfolding named_value_to_value value_to_named_from
named-named_from i [] = refl
named-named_from i (a ∷ args) = ap (◌∷◌ a) (named-named_from (i + 1) args)

-- A prepared statement's arguments survive their wrapping into named values.
named_value_to_value-value_to_named_value :
    (args : List Value) → named_value_to_value (value_to_named_value args) ≡ args
unfolding value_to_named_value
named_value_to_value-value_to_named_value args = named-named_from 0 args
