-- ===== src/Sdk.antt =====
-- What go/connector.go uses of the AWS SDK for Go: the options of a load, the configuration of the
-- environment, and the configuration of the clients.
-- `Sdk` is the parameter for what the SDK and the operating system give: the environment, the SDK's
-- reading of it, `LoadDefaultConfig`, the reading of a file and of certificates, and the constants
-- of the SDK. `Loading` is a result with the options of the loads that were made, in order.
use athenadriver.Base.{ℕ, Bool, List, [], ◌++◌, Option, Bytes}
use athenadriver.Errors.{Outcome, returned, failed, panics, unfinished}
use athenadriver.Workgroup.{Tag}

-- What `LoadDefaultConfig` is given: a profile, a region, and whether the shared configuration
-- files are replaced by none.
pub record LoadOptions : Type 0 where
  pub profile : Option Bytes
  pub region : Option Bytes
  pub no_config_files : Bool

-- The fields of `config.EnvConfig` that the driver reads.
pub record EnvConfig : Type 0 where
  pub region : Bytes
  pub app_id : Bytes
  pub retry_max_attempts : ℕ
  pub retry_mode : Bytes
  pub defaults_mode : Bytes
  pub account_id_endpoint_mode : Bytes
  pub request_checksum_calculation : ℕ
  pub response_checksum_validation : ℕ
  pub request_min_compress_size_bytes : Option ℕ
  pub disable_request_compression : Option Bool
  pub auth_scheme_preference : List Bytes
  pub base_endpoint : Bytes
  pub custom_ca_bundle : Bytes

-- `stscreds.AssumeRoleOptions`, as far as the driver sets them.
pub record RoleOptions : Type 0 where
  pub role_session_name : Bytes
  pub external_id : Option Bytes
  pub tags : List Tag

pub data Credentials : Type 0 where
  static_keys : Bytes → Bytes → Bytes → Credentials
  -- the credentials of the base configuration, the role, and the options, behind a cache
  assumed_role : Credentials → Bytes → RoleOptions → Credentials
  -- what `LoadDefaultConfig` chose
  default_chain : Credentials

pub record AwsConfig : Type 0 where
  pub region : Bytes
  pub credentials : Credentials
  pub app_id : Bytes
  pub retry_max_attempts : ℕ
  pub retry_mode : Bytes
  pub defaults_mode : Bytes
  pub account_id_endpoint_mode : Bytes
  pub request_checksum_calculation : ℕ
  pub response_checksum_validation : ℕ
  pub request_min_compress_size_bytes : ℕ
  pub disable_request_compression : Bool
  pub auth_scheme_preference : List Bytes
  -- the execution environment and the region
  pub runtime_environment : Option (Bytes × Bytes)
  pub base_endpoint : Option Bytes
  -- the certificates of the HTTP client
  pub ca_bundle : Option Bytes
  -- where the clients read the settings of their endpoints
  pub config_source : Option EnvConfig

pub record Sdk : Type 0 where
  pub getenv : Bytes → Bytes
  pub new_env_config : Outcome EnvConfig
  pub load_default_config : LoadOptions → Outcome AwsConfig
  pub read_file : Bytes → Option Bytes
  pub append_certs_from_pem : Bytes → Bool
  pub defaults_mode_legacy : Bytes
  pub defaults_mode_auto : Bytes
  pub account_id_endpoint_mode_preferred : Bytes
  pub request_checksum_when_supported : ℕ
  pub response_checksum_when_supported : ℕ

abbrev pub Loading : Type 0 → Type 0
Loading A = List LoadOptions × Outcome A

infixl 5 ◌>>=◌
abbrev pub ◌>>=◌ : {A B : Type 0} → Loading A → (A → Loading B) → Loading B
(ls, returned a) >>= f = (ls ++ (f a).0, (f a).1)
(ls, failed e) >>= f = (ls, failed e)
(ls, panics) >>= f = (ls, panics)
(ls, unfinished) >>= f = (ls, unfinished)

abbrev pub pure : {A : Type 0} → Outcome A → Loading A
pure o = ([], o)
