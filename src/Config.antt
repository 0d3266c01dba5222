-- ===== src/Config.antt =====
-- go/config.go: the driver's configuration, which is a URL and the values of its query. Here are
-- the record, the constructors, the bucket, and the settings that are texts or numbers; the
-- children model the flags, the masks, the workgroup and the session tags.
-- `getenv` is the parameter for the environment of the process.
pub mod Flags
pub mod Groups
pub mod Invariant
pub mod Laws
pub mod TagLaws
pub mod Text
use athenadriver.Base.{
  ℕ, suc, Bool, true, false, ◌&&◌, not, List, [], ◌∷◌, ◌++◌, Option, none, some, if◌then◌else◌,
  Bytes, codes, bytes_eq, length, drop, take, ◌==◌,
}
use athenadriver.Decimal.{ℤ, pos, format_int, atoi}
use athenadriver.Errors.{
  Error, config_output_location, config_region, config_access_id_required,
  config_access_key_required,
}
use athenadriver.ServiceLimit.{
  ServiceLimitOverride, new_service_limit_override, get_as_string_map, set_from_values,
  pool_interval,
}
use athenadriver.Strings.{has_prefix, index_byte, trim_slash}
use athenadriver.Url.{Values}
use athenadriver.Url

pub record Config : Type 0 where
  pub scheme : Bytes
  pub user : Bytes
  pub host : Bytes
  pub path : Bytes
  pub raw_query : Bytes
  pub values : Values

abbrev pub get : Config → Bytes → Bytes
get c key = Url.get c.values key

abbrev pub put : Config → Bytes → Bytes → Config
put c key v = record c { values = Url.put c.values key v }

abbrev pub is_empty : Bytes → Bool
is_empty [] = true
is_empty (b ∷ bs) = false

-- `if b { … "true" } else { … "false" }`
abbrev pub bool_text : Bool → Bytes
bool_text b = if b then codes "true" else codes "false"

-- The text if it is not empty, and otherwise the default.
abbrev pub or_else : Bytes → Bytes → Bytes
or_else [] default = default
or_else (b ∷ bs) default = b ∷ bs

abbrev pub default_db_name : Bytes
default_db_name = codes "default"

abbrev pub default_region : Bytes
default_region = codes "us-east-1"

unfoldable pub new_no_ops_config : Config
new_no_ops_config =
    let a : Config = record {
      scheme = codes "s3";
      user = [];
      host = [];
      path = [];
      raw_query = [];
      values = [];
    } in
    put
      (put (put (put a (codes "db") default_db_name) (codes "region") default_region)
        (codes "missingAsEmptyString") (bool_text true))
      (codes "WGRemoteCreation") (bool_text true)

unfoldable pub is_valid : Config → Bool
is_valid c = bytes_eq c.scheme (codes "s3") && not (is_empty (get c (codes "region")))

-- `strings.SplitN(o, "/", 2)`, as the host and the path.
abbrev host_path : Option ℕ → Bytes → Bytes × Bytes
host_path none o = (o, [])
host_path (some i) o = (take i o, drop (suc i) o)

unfoldable pub set_output_bucket : Config → Bytes → Config × Option Error
set_output_bucket c o =
    if not (has_prefix o (codes "s3://"))
    then (c, some config_output_location)
    else let bucket = drop 5 o in
      let (host, path) = host_path (index_byte bucket b'/') bucket in
      (record c { host = host; path = path }, none)

unfoldable pub get_output_bucket : Config → Bytes
get_output_bucket c =
    if has_prefix c.path (codes "/")
    then (c.scheme ++ codes "://") ++ (c.host ++ c.path)
    else (c.scheme ++ codes "://") ++ (c.host ++ (codes "/" ++ c.path))

unfoldable pub get_output_bucketname : Config → Bytes
get_output_bucketname c = c.host

unfoldable pub get_query_result_key : Config → Bytes → Bytes
get_query_result_key c qid =
    let path = trim_slash c.path in
    (if not (is_empty path) then path ++ (b'/' ∷ qid) else qid) ++ codes ".csv"

unfoldable pub set_scratch_dir : Config → Bytes → Config
set_scratch_dir c d = put c (codes "scratchDir") d

-- `temp_dir` is the parameter for `os.TempDir()`.
unfoldable pub get_scratch_dir : Bytes → Config → Bytes
get_scratch_dir temp_dir c = or_else (get c (codes "scratchDir")) temp_dir

unfoldable pub set_region : Config → Bytes → Config × Option Error
set_region c o = if is_empty o then (c, some config_region) else (put c (codes "region") o, none)

unfoldable pub set_user : Config → Bytes → Config
set_user c o = record c { user = o }

unfoldable pub get_user : Config → Bytes
get_user c = c.user

unfoldable pub set_db : Config → Bytes → Config
set_db c o = put c (codes "db") o

unfoldable pub get_db : Config → Bytes
get_db c = or_else (get c (codes "db")) default_db_name

unfoldable pub set_result_poll_interval_seconds : Config → ℤ → Config
set_result_poll_interval_seconds c n = put c (codes "resultPollIntervalSeconds") (format_int n)

abbrev poll_seconds : ℤ × Bool → ℤ
poll_seconds (n, true) = n
poll_seconds (n, false) = pos pool_interval

-- The interval in seconds.
unfoldable pub get_result_poll_interval_seconds : Config → ℤ
get_result_poll_interval_seconds c =
    let val = get c (codes "resultPollIntervalSeconds") in
    if not (is_empty val) then poll_seconds (atoi val) else pos pool_interval

unfoldable pub set_access_id : Config → Bytes → Config × Option Error
set_access_id c o =
    if is_empty o then (c, some config_access_id_required) else (put c (codes "accessID") o, none)

unfoldable pub set_secret_access_key : Config → Bytes → Config × Option Error
set_secret_access_key c o =
    if is_empty o
    then (c, some config_access_key_required)
    else (put c (codes "secretAccessKey") o, none)

unfoldable pub set_session_token : Config → Bytes → Config
set_session_token c o = put c (codes "sessionToken") o

unfoldable pub set_aws_profile : Config → Bytes → Config
set_aws_profile c profile = put c (codes "AWSProfile") profile

unfoldable pub get_aws_profile : Config → Bytes
get_aws_profile c = get c (codes "AWSProfile")

put_all : Values → List (Bytes × Bytes) → Values
put_all m [] = m
put_all m ((k, v) ∷ kvs) = put_all (Url.put m k v) kvs

unfoldable pub set_service_limit_override : Config → ServiceLimitOverride → Config
unfolding put_all get_as_string_map
set_service_limit_override c o = record c { values = put_all c.values (get_as_string_map o) }

unfoldable pub get_service_limit_override : Config → ServiceLimitOverride
unfolding set_from_values new_service_limit_override
get_service_limit_override c = set_from_values new_service_limit_override c.values

unfoldable pub set_role_arn : Config → Bytes → Config
set_role_arn c o = put c (codes "roleArn") o

unfoldable pub set_external_id : Config → Bytes → Config
set_external_id c o = put c (codes "externalID") o

unfoldable pub set_role_session_name : Config → Bytes → Config
set_role_session_name c o = put c (codes "roleSessionName") o

-- `NewDefaultConfig`: the configuration, or the first error.
abbrev then_set : Config × Option Error → (Config → Config × Option Error) → Config × Option Error
then_set (c, none) f = f c
then_set (c, some e) f = (c, some e)

unfoldable pub new_default_config : Bytes → Bytes → Bytes → Bytes → Config × Option Error
unfolding new_no_ops_config set_output_bucket set_region set_access_id set_secret_access_key
    set_result_poll_interval_seconds
new_default_config bucket region access_id secret =
    then_set (set_output_bucket new_no_ops_config bucket) λ c. then_set (set_region c region) λ c'.
      then_set (if not (is_empty access_id) then set_access_id c' access_id else (c', none)) λ d.
        then_set (if not (is_empty secret) then set_secret_access_key d secret else (d, none))
          λ d'. (set_result_poll_interval_seconds d' (pos pool_interval), none)

module _ (getenv : Bytes → Bytes) where
  -- `GetFromEnvVal` of go/utils.go
  unfoldable pub get_from_env_val : List Bytes → Bytes
  get_from_env_val [] = []
  get_from_env_val (k ∷ ks) =
      let rest = get_from_env_val ks in let v = getenv k in if not (is_empty v) then v else rest

  unfoldable pub get_region : Config → Bytes
  unfolding get_from_env_val
  get_region c =
      or_else (get c (codes "region"))
        (get_from_env_val (codes "AWS_REGION" ∷ codes "AWS_DEFAULT_REGION" ∷ []))

  unfoldable pub get_access_id : Config → Bytes
  unfolding get_from_env_val
  get_access_id c =
      or_else (get c (codes "accessID"))
        (get_from_env_val (codes "AWS_ACCESS_KEY_ID" ∷ codes "AWS_ACCESS_KEY" ∷ []))

  unfoldable pub get_secret_access_key : Config → Bytes
  unfolding get_from_env_val
  get_secret_access_key c =
      or_else (get c (codes "secretAccessKey"))
        (get_from_env_val (codes "AWS_SECRET_ACCESS_KEY" ∷ codes "AWS_SECRET_KEY" ∷ []))

  unfoldable pub get_session_token : Config → Bytes
  unfolding get_from_env_val
  get_session_token c =
      or_else (get c (codes "sessionToken")) (get_from_env_val (codes "AWS_SESSION_TOKEN" ∷ []))

  unfoldable pub get_role_arn : Config → Bytes
  unfolding get_from_env_val
  get_role_arn c = or_else (get c (codes "roleArn")) (get_from_env_val (codes "AWS_ROLE_ARN" ∷ []))

  unfoldable pub get_external_id : Config → Bytes
  unfolding get_from_env_val
  get_external_id c =
      or_else (get c (codes "externalID")) (get_from_env_val (codes "AWS_EXTERNAL_ID" ∷ []))

  unfoldable pub get_role_session_name : Config → Bytes
  unfolding get_from_env_val
  get_role_session_name c = or_else (get c (codes "roleSessionName")) (
      or_else (get_from_env_val (codes "AWS_ROLE_SESSION_NAME" ∷ []))
        (codes "athenadriver-session"))
