-- ===== src/Config/Flags/RoundTrip.antt =====
-- Setting and reading the Boolean settings of go/config.go.
use athenadriver.Base.{
  Bool, true, false, not, Bytes, codes, bytes_eq, bytes_eq_refl, ◌≡◌, refl, ap, ◌∙◌,
}
use athenadriver.Config.Flags.{
  is_missing_as_empty_string, set_missing_as_empty_string, is_missing_as_default,
  set_missing_as_default, is_missing_as_nil, set_missing_as_nil, is_wg_remote_creation_allowed,
  set_wg_remote_creation_allowed, is_metrics_enabled, set_metrics, is_read_only, set_read_only,
  is_money_wise, set_money_wise, is_logging_enabled, set_logging,
}
use athenadriver.Config.{Config, get, put, bool_text}
use athenadriver.Url.{get-put}

same_key : (c : Config) (k v : Bytes) → get (put c k v) k ≡ v
same_key c k v = get-put c.values k k v ∙ (rw (bytes_eq_refl k) refl)

bool_text-true : (b : Bool) → bytes_eq (bool_text b) (codes "true") ≡ b
bool_text-true true = refl
bool_text-true false = refl

bool_text-false : (b : Bool) → not (bytes_eq (bool_text b) (codes "false")) ≡ b
bool_text-false true = refl
bool_text-false false = refl

read_true :
    (c : Config) (k : Bytes) (b : Bool)
    → bytes_eq (get (put c k (bool_text b)) k) (codes "true") ≡ b
read_true c k b =
    ap (λ v. bytes_eq v (codes "true")) (same_key c k (bool_text b)) ∙ bool_text-true b

read_false :
    (c : Config) (k : Bytes) (b : Bool)
    → not (bytes_eq (get (put c k (bool_text b)) k) (codes "false")) ≡ b
read_false c k b =
    ap (λ v. not (bytes_eq v (codes "false"))) (same_key c k (bool_text b)) ∙ bool_text-false b

-- Each of the eight Boolean settings is read as it was set last, whatever the configuration.
pub flag-set_flag :
    (c : Config) (b : Bool)
    → (is_missing_as_empty_string (set_missing_as_empty_string c b) ≡ b)
      × (is_missing_as_default (set_missing_as_default c b) ≡ b)
      × (is_missing_as_nil (set_missing_as_nil c b) ≡ b)
      × (is_wg_remote_creation_allowed (set_wg_remote_creation_allowed c b) ≡ b)
      × (is_metrics_enabled (set_metrics c b) ≡ b)
      × (is_read_only (set_read_only c b) ≡ b)
      × (is_money_wise (set_money_wise c b) ≡ b)
      × (is_logging_enabled (set_logging c b) ≡ b)
unfolding is_missing_as_empty_string set_missing_as_empty_string is_missing_as_default
    set_missing_as_default is_missing_as_nil set_missing_as_nil is_wg_remote_creation_allowed
    set_wg_remote_creation_allowed is_metrics_enabled set_metrics is_read_only set_read_only
    is_money_wise set_money_wise is_logging_enabled set_logging
flag-set_flag c b = (
  read_true c (codes "missingAsEmptyString") b,
  read_true c (codes "missingAsDefault") b,
  read_true c (codes "missingAsNil") b,
  read_true c (codes "WGRemoteCreation") b,
  read_true c (codes "MetricsEnabled") b,
  read_true c (codes "ReadOnly") b,
  read_true c (codes "MoneyWise") b,
  read_false c (codes "LoggingEnabled") b,
)
