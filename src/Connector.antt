-- ===== src/Connector.antt =====
-- go/connector.go and go/driver.go: how a connection gets its AWS configuration.
-- The SDK is a parameter. A load records its options, in order. Metrics and loggers that a context
-- may carry, and the clients that are made of the configuration, are left out.
pub mod Chain
pub mod Explicit
pub mod Settings
use athenadriver.Base.{
  ℕ, Bool, true, false, not, ◌||◌, ◌==◌, List, [], ◌∷◌, ◌++◌, Option, none, some, if◌then◌else◌,
  Bytes, codes, bytes_eq,
}
use athenadriver.Config.Groups.{get_session_tags}
use athenadriver.Config.Text.{UrlAddress, new_config}
use athenadriver.Config.{
  Config, is_empty, get_region, get_access_id, get_secret_access_key, get_session_token,
  get_role_arn, get_external_id, get_role_session_name, get_aws_profile,
}
use athenadriver.Errors.{Error, Outcome, returned, failed, panics, unfinished, message}
use athenadriver.Sdk.{
  LoadOptions, EnvConfig, RoleOptions, Credentials, static_keys, assumed_role, default_chain,
  AwsConfig, Sdk, Loading, ◌>>=◌, pure,
}
use athenadriver.Workgroup.{Tag}

-- The first value of `strconv.ParseBool`, which is false with an error.
unfoldable pub parse_bool : Bytes → Bool
parse_bool s =
    bytes_eq s (codes "1")
    || bytes_eq s (codes "t")
    || bytes_eq s (codes "T")
    || bytes_eq s (codes "TRUE")
    || bytes_eq s (codes "true")
    || bytes_eq s (codes "True")

abbrev pub text_or_default : Bytes → Bytes → Bytes
text_or_default [] default = default
text_or_default (c ∷ s) default = c ∷ s

-- `requestChecksumOrDefault` and `responseChecksumOrDefault`
abbrev pub number_or_default : ℕ → ℕ → ℕ
number_or_default n default = if n == 0 then default else n

-- `derefOr`
abbrev pub deref_or {ℓ} : {A : Type ℓ} → Option A → A → A
deref_or none fallback = fallback
deref_or (some a) fallback = a

abbrev pub default_request_min_compress_size_bytes : ℕ
default_request_min_compress_size_bytes = 10_240

abbrev non_empty : Bytes → Option Bytes
non_empty [] = none
non_empty (c ∷ s) = some (c ∷ s)

-- `(*SQLDriver).OpenConnector`: the connector keeps the configuration even beside an error.
unfoldable pub open_connector : UrlAddress → Bytes → Option Config × Option Error
unfolding new_config
open_connector codec dsn = new_config codec dsn

module _ (sdk : Sdk) where
  abbrev read_bundle : Option Bytes → Outcome Bytes
  read_bundle none = failed (message (codes "failed to read custom CA bundle PEM file"))
  read_bundle (some pem) =
      if not (sdk.append_certs_from_pem pem)
      then failed (message (codes "failed to load custom CA bundle PEM file"))
      else returned pem

  -- `caBundleClient`, as the certificates that the client trusts
  unfoldable pub ca_bundle_client : Bytes → Outcome Bytes
  ca_bundle_client path = read_bundle (sdk.read_file path)

  abbrev with_bundle : AwsConfig → Outcome Bytes → Outcome AwsConfig
  with_bundle cfg (returned pem) = returned (record cfg { ca_bundle = some pem })
  with_bundle cfg (failed e) = failed e
  with_bundle cfg panics = panics
  with_bundle cfg unfinished = unfinished

  -- The configuration before the CA bundle.
  abbrev pub env_settings : Config → Credentials → EnvConfig → AwsConfig
  env_settings c creds env =
      let mode = text_or_default env.defaults_mode sdk.defaults_mode_legacy in
      record {
        region = get_region sdk.getenv c;
        credentials = creds;
        app_id = env.app_id;
        retry_max_attempts = env.retry_max_attempts;
        retry_mode = env.retry_mode;
        defaults_mode = mode;
        account_id_endpoint_mode =
            text_or_default env.account_id_endpoint_mode sdk.account_id_endpoint_mode_preferred;
        request_checksum_calculation =
            number_or_default env.request_checksum_calculation sdk.request_checksum_when_supported;
        response_checksum_validation =
            number_or_default env.response_checksum_validation sdk.response_checksum_when_supported;
        request_min_compress_size_bytes =
            deref_or env.request_min_compress_size_bytes default_request_min_compress_size_bytes;
        disable_request_compression = deref_or env.disable_request_compression false;
        auth_scheme_preference = env.auth_scheme_preference;
        runtime_environment =
            if bytes_eq mode sdk.defaults_mode_auto
            then some (sdk.getenv (codes "AWS_EXECUTION_ENV"), env.region)
            else none;
        base_endpoint = non_empty env.base_endpoint;
        ca_bundle = none;
        config_source = some env;
      }

  abbrev from_env : Config → Credentials → Outcome EnvConfig → Outcome AwsConfig
  from_env c creds (returned env) =
      if not (is_empty env.custom_ca_bundle)
      then with_bundle (env_settings c creds env) (ca_bundle_client env.custom_ca_bundle)
      else returned (env_settings c creds env)
  from_env c creds (failed e) = failed e
  from_env c creds panics = panics
  from_env c creds unfinished = unfinished

  -- `configFromEnv`
  unfoldable pub config_from_env : Config → Credentials → Outcome AwsConfig
  unfolding ca_bundle_client
  config_from_env c creds = from_env c creds sdk.new_env_config

  -- `loadConfigWithCredentials`
  unfoldable pub load_config_with_credentials : Config → Credentials → Loading AwsConfig
  unfolding config_from_env
  load_config_with_credentials c creds = pure (config_from_env c creds)

  abbrev pub load : LoadOptions → Loading AwsConfig
  load o = (o ∷ [], sdk.load_default_config o)

  abbrev pub chain_options : Config → Bool → LoadOptions
  chain_options c no_files = record {
    profile = none;
    region = some (get_region sdk.getenv c);
    no_config_files = no_files;
  }

  -- The second load, which an error of the first makes.
  abbrev fall_back : Config → Error → Outcome AwsConfig → Loading AwsConfig
  fall_back c e (returned cfg) = (chain_options c true ∷ [], returned cfg)
  fall_back c e (failed d) = (chain_options c true ∷ [], failed e)
  fall_back c e panics = (chain_options c true ∷ [], panics)
  fall_back c e unfinished = (chain_options c true ∷ [], unfinished)

  abbrev after_first : Config → Outcome AwsConfig → Loading AwsConfig
  after_first c (returned cfg) = ([], returned cfg)
  after_first c (failed e) = fall_back c e (sdk.load_default_config (chain_options c true))
  after_first c panics = ([], panics)
  after_first c unfinished = ([], unfinished)

  -- `loadDefaultChainConfig`
  unfoldable pub load_default_chain_config : Config → Loading AwsConfig
  load_default_chain_config c =
      let next = after_first c (sdk.load_default_config (chain_options c false)) in
      (chain_options c false ∷ next.0, next.1)

  abbrev pub static_credentials : Config → Credentials
  static_credentials c =
      static_keys (get_access_id sdk.getenv c) (get_secret_access_key sdk.getenv c)
        (get_session_token sdk.getenv c)

  -- `createBaseConfig`; the last two branches of `Connect` are the same.
  unfoldable pub create_base_config : Config → Loading AwsConfig
  unfolding load_config_with_credentials load_default_chain_config
  create_base_config c =
      if not (is_empty (get_access_id sdk.getenv c))
      then load_config_with_credentials c (static_credentials c)
      else load_default_chain_config c

  abbrev or_no_tags : Option (List Tag) → List Tag
  or_no_tags none = []
  or_no_tags (some ts) = ts

  abbrev role_options : Config → RoleOptions
  role_options c = record {
    role_session_name = get_role_session_name sdk.getenv c;
    external_id = non_empty (get_external_id sdk.getenv c);
    tags = or_no_tags (get_session_tags sdk.getenv c);
  }

  abbrev assume_role : Config → AwsConfig → Loading AwsConfig
  assume_role c base =
      load_config_with_credentials c
        (assumed_role base.credentials (get_role_arn sdk.getenv c) (role_options c))

  abbrev pub profile_options : Config → LoadOptions
  profile_options c = record {
    profile = non_empty (get_aws_profile c);
    region = none;
    no_config_files = false;
  }

  -- `Connect`, as the AWS configuration of the connection's clients.
  unfoldable pub connect : Config → Loading AwsConfig
  unfolding create_base_config load_config_with_credentials parse_bool
  connect c =
      if parse_bool (sdk.getenv (codes "AWS_SDK_LOAD_CONFIG"))
      then load (profile_options c)
      else if not (is_empty (get_role_arn sdk.getenv c))
      then (create_base_config c >>= λ base. assume_role c base)
      else create_base_config c

  abbrev open_config : Option Config × Option Error → Loading AwsConfig
  open_config (c, some e) = pure (failed e)
  open_config (none, none) = pure panics
  open_config (some c, none) = connect c

  -- `(*SQLDriver).Open`
  unfoldable pub open_driver : UrlAddress → Bytes → Loading AwsConfig
  unfolding connect new_config
  open_driver codec dsn = open_config (new_config codec dsn)
