-- ===== src/Errors.antt =====
-- The errors of go/errors.go, with those of the packages that the driver returns, and the
-- outcome of a Go function: a value, an error, or a panic.
use mathlib.Core.Path.{◌≡◌, refl}
use athenadriver.Base.{Bytes, Option, none, some}

pub data Error : Type 0 where
  invalid_query : Error
  config_invalid_config : Error
  config_output_location : Error
  config_region : Error
  config_wg_pointer : Error
  config_access_id_required : Error
  config_access_key_required : Error
  query_unknown_type : Error
  query_buffer_of : Error
  query_timeout : Error
  athena_transaction_unsupported : Error
  athena_nil_datum : Error
  athena_nil_api : Error
  test_mock_generic : Error
  test_mock_failed_by_athena : Error
  service_limit_override : Error
  -- `driver.ErrBadConn`, `io.EOF`, `context.Canceled`, `context.DeadlineExceeded`
  bad_conn : Error
  eof : Error
  canceled : Error
  deadline_exceeded : Error
  -- `fmt.Errorf` and `errors.New` with a text made at run time
  message : Bytes → Error
  -- an error of a service call: its `ErrorMessage`, and its `ServiceRequestID`, empty if none
  service : Bytes → Bytes → Error

-- `unfinished` stands for a loop whose fuel ran out; no Go function returns it.
pub data Outcome {ℓ} (A : Type ℓ) : Type ℓ where
  returned : A → Outcome A
  failed : Error → Outcome A
  panics : Outcome A
  unfinished : Outcome A

infixl 5 ◌>>=◌
abbrev pub ◌>>=◌ {ℓ κ} : {A : Type ℓ} {B : Type κ} → Outcome A → (A → Outcome B) → Outcome B
returned a >>= f = f a
failed e >>= f = failed e
panics >>= f = panics
unfinished >>= f = unfinished

-- A read out of range panics.
abbrev pub or_panic {ℓ} : {A : Type ℓ} → Option A → Outcome A
or_panic none = panics
or_panic (some a) = returned a

pub >>=-eq-returned {ℓ κ} :
    {A : Type ℓ} {B : Type κ} (m : Outcome A) (f : A → Outcome B) {b : B}
    → (m >>= f) ≡ returned b
    → (a : A) × (m ≡ returned a) × (f a ≡ returned b)
>>=-eq-returned (returned a) f h = (a, refl, h)
>>=-eq-returned (failed e) f h = cc
>>=-eq-returned panics f h = cc
>>=-eq-returned unfinished f h = cc
