-- ===== src/Tests/Setup.antt =====
-- The theorems on the configuration, its DSN, the connector and athenareader at concrete inputs.
use athenadriver.Athenareader.Dsn.{open_connector-new_query}
use athenadriver.Athenareader.Loop.{Answer, answers, printed, up_to_error, query_athena-answers}
use athenadriver.Athenareader.{new_query, query_athena}
use athenadriver.Configfx.{
  System, Flags, AthenaDriverConfig, ReaderOutputConfig, ReaderInputConfig, left_empty, goes_on,
  new, assembled, populate, locate_config,
}
use athenadriver.Base.{
  ℕ, zero, suc, true, false, List, [], ◌∷◌, ◌++◌, map, Option, none, some, if◌then◌else◌, Bytes,
  codes, bytes_eq, ◌==◌, drop, ◌≡◌, ◌≢◌, ◌⊎◌, ◌↔◌, inl, inr, refl, arith,
}
use athenadriver.Config.Flags.{is_read_only, set_read_only, set_money_wise}
use athenadriver.Config.Invariant.{new_default_config-IsQuery}
use athenadriver.Config.Text.RoundTrip.{IsReadable, new_config-stringify}
use athenadriver.Config.Text.Secret.{safe_stringify-put}
use athenadriver.Config.Text.{
  Address, UrlAddress, address_of, new_config, stringify, safe_stringify,
}
use athenadriver.Config.{
  Config, put, get_region, is_empty, get_access_id, is_valid, new_default_config, new_no_ops_config,
  set_db,
}
use athenadriver.Connector.Chain.{first, second, load_default_chain_config_iff}
use athenadriver.Connector.Explicit.{connect-with_loader, with_loader}
use athenadriver.Connector.Settings.{
  IsSettled, IsFilled, config_from_env-bundle, config_from_env-defaults,
}
use athenadriver.Connector.{
  open_connector, connect, parse_bool, config_from_env, ca_bundle_client, load_default_chain_config,
  profile_options,
}
use athenadriver.Sdk.{Sdk, EnvConfig, AwsConfig, static_keys}
use athenadriver.Decimal.{pos}
use athenadriver.Errors.{Error, returned, failed, eof, bad_conn}
use athenadriver.Strings.{index_byte, cut}
use athenadriver.Url.Escape.{AllBytes}
use athenadriver.Url.RoundTrip.{IsQuery}
use athenadriver.Url.{lookup}
use athenadriver.Url

-- An address `s3://bucket/`, and what reads and writes it.
abbrev bucket_address : Address
bucket_address = record { scheme = codes "s3"; user = []; host = codes "bucket"; path = [] }

-- Addresses without a user and without bytes that net/url escapes.
abbrev rooted : Bytes → Bytes
rooted [] = []
rooted (c ∷ path) = if c == b'/' then c ∷ path else b'/' ∷ c ∷ path

abbrev at_host : Bytes → Bytes × Bytes → Option Address
at_host scheme (host, []) = some (record { scheme = scheme; user = []; host = host; path = [] })
at_host scheme (host, c ∷ path) =
    some (record { scheme = scheme; user = []; host = host; path = b'/' ∷ c ∷ path })

abbrev at_scheme : Bytes × Bytes → Option Address
at_scheme (scheme, []) = none
at_scheme (scheme, c ∷ rest) = at_host scheme (cut (drop 1 rest) b'/')

abbrev codec : UrlAddress
codec = record {
  print = λ a. a.scheme ++ codes "://" ++ a.host ++ rooted a.path;
  parse = λ s. at_scheme (cut s b':');
}

abbrev made : Config × Option Error
made =
    new_default_config (codes "s3://bucket/logs") (codes "us-east-2") (codes "dummy")
      (codes "dummy")

made-returns : made ≡ (made.0, none)
unfolding new_default_config
made-returns = refl

new_default_config-IsQuery_example : IsQuery made.0.values × (is_valid made.0 ≡ true)
new_default_config-IsQuery_example =
    new_default_config-IsQuery (codes "s3://bucket/logs") (codes "us-east-2") (codes "dummy")
      (codes "dummy") made.0 (omega arith) (omega arith) (omega arith) made-returns

made-IsReadable : IsReadable codec (address_of made.0)
unfolding new_default_config index_byte cut
made-IsReadable = record {
  lacks_query = omega arith;
  lacks_fragment = omega arith;
  address = record { scheme = codes "s3"; user = []; host = codes "bucket"; path = codes "/logs" };
  parses = refl;
  same_scheme = refl;
}

new_config-stringify_example :
    (c' : Config) × (new_config codec (stringify codec made.0).1 ≡ (some c', none))
    × (is_valid c' ≡ true)
    × (address_of c' ≡ made-IsReadable.address)
    × ((k : Bytes) → lookup c'.values k ≡ lookup made.0.values k)
new_config-stringify_example =
    new_config-stringify codec made.0 made-IsReadable new_default_config-IsQuery_example.0
      new_default_config-IsQuery_example.1

some_text : codes "a&b" ≢ []
some_text = cc

other_text : codes "c" ≢ []
other_text = cc

safe_stringify-put_example :
    (safe_stringify codec (put made.0 (codes "secretAccessKey") (codes "a&b"))).1
    ≡ (safe_stringify codec (put made.0 (codes "secretAccessKey") (codes "c"))).1
safe_stringify-put_example =
    safe_stringify-put codec made.0 (codes "a&b") (codes "c") some_text other_text

-- An SDK with a bundle of certificates and no profile.
abbrev env_config : EnvConfig
env_config = record {
  region = codes "us-east-1";
  app_id = [];
  retry_max_attempts = 0;
  retry_mode = [];
  defaults_mode = [];
  account_id_endpoint_mode = [];
  request_checksum_calculation = 0;
  response_checksum_validation = 2;
  request_min_compress_size_bytes = none;
  disable_request_compression = none;
  auth_scheme_preference = [];
  base_endpoint = [];
  custom_ca_bundle = codes "ca.pem";
}

abbrev sdk : Sdk
sdk = record {
  getenv = λ _. [];
  new_env_config = returned env_config;
  load_default_config = λ o. if o.no_config_files then failed bad_conn else failed eof;
  read_file = λ _. some (codes "pem");
  append_certs_from_pem = λ _. true;
  defaults_mode_legacy = codes "legacy";
  defaults_mode_auto = codes "auto";
  account_id_endpoint_mode_preferred = codes "preferred";
  request_checksum_when_supported = 1;
  response_checksum_when_supported = 1;
}

abbrev keyed : Config
keyed = put new_no_ops_config (codes "accessID") (codes "id")

keyed-HasAccessId : is_empty (get_access_id sdk.getenv keyed) ≡ false
unfolding get_access_id new_no_ops_config Url.get Url.put
keyed-HasAccessId = refl

connect-with_loader_example :
    ((parse_bool (sdk.getenv (codes "AWS_SDK_LOAD_CONFIG")) ≡ true)
      × (connect sdk keyed
          ≡ (profile_options sdk keyed ∷ [], sdk.load_default_config (profile_options sdk keyed))))
    ⊎ ((parse_bool (sdk.getenv (codes "AWS_SDK_LOAD_CONFIG")) ≡ false)
        × ((connect sdk keyed).0 ≡ [])
        × (connect (with_loader sdk (λ o. failed eof)) keyed ≡ connect sdk keyed))
connect-with_loader_example = connect-with_loader sdk (λ o. failed eof) keyed keyed-HasAccessId

abbrev settings : AwsConfig
settings = record {
  region = codes "us-east-1";
  credentials = static_keys [] [] [];
  app_id = [];
  retry_max_attempts = 0;
  retry_mode = [];
  defaults_mode = codes "legacy";
  account_id_endpoint_mode = codes "preferred";
  request_checksum_calculation = 1;
  response_checksum_validation = 2;
  request_min_compress_size_bytes = 10_240;
  disable_request_compression = false;
  auth_scheme_preference = [];
  runtime_environment = none;
  base_endpoint = none;
  ca_bundle = some (codes "pem");
  config_source = some env_config;
}

load_default_chain_config_iff_example :
    ((load_default_chain_config sdk keyed).1 ≡ returned settings
      ↔ (first sdk keyed ≡ returned settings)
        ⊎ ((d : Error) × (first sdk keyed ≡ failed d) × (second sdk keyed ≡ returned settings)))
    × ((load_default_chain_config sdk keyed).1 ≡ failed eof
        ↔ (first sdk keyed ≡ failed eof) × (d : Error) × (second sdk keyed ≡ failed d))
load_default_chain_config_iff_example = load_default_chain_config_iff sdk keyed settings eof

settings-returned : config_from_env sdk new_no_ops_config (static_keys [] [] []) ≡ returned settings
unfolding config_from_env ca_bundle_client get_region new_no_ops_config Url.get Url.put
settings-returned = refl

config_from_env-bundle_example :
    (pem : Bytes) × (sdk.read_file (codes "ca.pem") ≡ some pem)
    × (sdk.append_certs_from_pem pem ≡ true)
    × (settings.ca_bundle ≡ some pem)
config_from_env-bundle_example =
    config_from_env-bundle sdk new_no_ops_config (static_keys [] [] []) env_config settings refl
      refl settings-returned

config_from_env-defaults_example :
    (settings.region ≡ get_region sdk.getenv new_no_ops_config)
    × (settings.credentials ≡ static_keys [] [] [])
    × IsSettled 0 1 0 settings.request_checksum_calculation
    × IsSettled 0 1 2 settings.response_checksum_validation
    × IsSettled [] (codes "legacy") [] settings.defaults_mode
    × IsSettled [] (codes "preferred") [] settings.account_id_endpoint_mode
    × IsFilled 10_240 none settings.request_min_compress_size_bytes
    × IsFilled false none settings.disable_request_compression
config_from_env-defaults_example =
    config_from_env-defaults sdk new_no_ops_config (static_keys [] [] []) env_config settings refl
      settings-returned

-- A run of athenareader, by a user who is no administrator.
abbrev output : ReaderOutputConfig
output = record {
  render = codes "csv";
  page = pos 1024;
  style = codes "default";
  rowonly = false;
  moneywise = true;
  fastfail = true;
}

abbrev input : ReaderInputConfig
input = record {
  bucket = codes "s3://bucket/logs";
  region = codes "us-east-2";
  database = codes "sampledb";
  admin = false;
}

abbrev flags : Flags
flags = record {
  bucket = none;
  database = none;
  query = some (codes "select 2");
  row_only = none;
  money_wise = none;
  version = false;
  admin = none;
  style = none;
  format = some (codes "html");
  fast_fail = none;
}

abbrev system : System
system = record {
  getenv = λ _. codes "h";
  getwd = codes "w";
  home_of_user = some (codes "h");
  exists = λ p. bytes_eq p (codes "athenareader.config");
  read_file = λ _. none;
  new_yaml = λ _. returned (output, input);
  download_file = λ _ _. left_empty;
  join = λ a b. a ++ b;
}

abbrev started : AthenaDriverConfig
started = assembled system flags output input made.0

started-by_new : (new system flags).1 ≡ goes_on (returned started)
unfolding new populate locate_config new_default_config
started-by_new = refl

started-admin : started.input_config.admin ≡ false
unfolding assembled
started-admin = refl

started-IsReadable : IsReadable codec (address_of started.drv_config)
unfolding assembled set_money_wise set_db set_read_only new_default_config index_byte cut
started-IsReadable = made-IsReadable

started-region : AllBytes started.input_config.region
unfolding assembled
started-region = omega arith

started-database : AllBytes started.input_config.database
unfolding assembled
started-database = omega arith

open_connector-new_query_example :
    (c : Config) × (open_connector codec (new_query codec started).0 ≡ (some c, none))
    × (is_read_only c ≡ true)
open_connector-new_query_example =
    open_connector-new_query system flags codec started started-by_new started-admin started-region
      started-database started-IsReadable

-- A database whose second answer is an error.
abbrev query : Bytes → ℕ → Answer × ℕ
query q zero = (inr (record { columns = codes "a" ∷ []; cells = [] }), 1)
query q (suc n) = (inl eof, suc (suc n))

abbrev queries : List Bytes
queries = codes "select 1" ∷ codes " \n" ∷ codes "select 2" ∷ codes "select 3" ∷ []

query_athena-answers_example :
    (query_athena query output queries 0).0
    ≡ map (printed query output) (
        if output.fastfail
        then up_to_error (answers query output queries 0)
        else answers query output queries 0)
query_athena-answers_example = query_athena-answers query output queries 0
