-- ===== src/Connector/Settings.antt =====
-- go/connector.go: the settings of a configuration that `configFromEnv` makes.
use athenadriver.Base.{
  ℕ, ◌∷◌, Option, none, ◌⊎◌, inl, inr, refl, true, false, [], some, Bytes, ◌≡◌, ◌≢◌, arith,
}
use athenadriver.Config.{Config, is_empty, get_region}
use athenadriver.Connector.{
  config_from_env, ca_bundle_client, number_or_default, text_or_default, deref_or, env_settings,
}
use athenadriver.Sdk.{Sdk, AwsConfig, EnvConfig, Credentials}
use athenadriver.Errors.{returned}

-- The value found is the one given, or the default if the given one is the one that means unset.
abbrev pub IsSettled : {A : Type 0} → A → A → A → A → Type 0
IsSettled unset default given found =
    ((given ≢ unset) × (found ≡ given)) ⊎ ((given ≡ unset) × (found ≡ default))

-- The same of a given value that may be nil.
abbrev pub IsFilled : {A : Type 0} → A → Option A → A → Type 0
IsFilled default given found = (given ≡ some found) ⊎ ((given ≡ none) × (found ≡ default))

number_or_default-IsSettled : (n d : ℕ) → IsSettled 0 d n (number_or_default n d)
number_or_default-IsSettled n d = ground arith

text_or_default-IsSettled : (s d : Bytes) → IsSettled [] d s (text_or_default s d)
text_or_default-IsSettled [] d = inr (refl, refl)
text_or_default-IsSettled (c ∷ s) d = inl (cc, refl)

deref_or-IsFilled : {A : Type 0} (o : Option A) (d : A) → IsFilled d o (deref_or o d)
deref_or-IsFilled none d = inr (refl, refl)
deref_or-IsFilled (some a) d = inl refl

module _ (sdk : Sdk) (c : Config) (creds : Credentials) where
  -- A configuration from the environment that names a file of certificates trusts the certificates
  -- of that file: without the file, or if the file holds no certificates, there is no configuration.
  pub config_from_env-bundle :
      (env : EnvConfig) (cfg : AwsConfig)
      → sdk.new_env_config ≡ returned env
      → is_empty env.custom_ca_bundle ≡ false
      → config_from_env sdk c creds ≡ returned cfg
      → (pem : Bytes) × (sdk.read_file env.custom_ca_bundle ≡ some pem)
        × (sdk.append_certs_from_pem pem ≡ true)
        × (cfg.ca_bundle ≡ some pem)
  unfolding config_from_env ca_bundle_client
  config_from_env-bundle env cfg h l k = ground arith

  settled :
      (env : EnvConfig) (cfg : AwsConfig)
      → sdk.new_env_config ≡ returned env
      → config_from_env sdk c creds ≡ returned cfg
      → (b : Option Bytes) × (cfg ≡ record (env_settings sdk c creds env) { ca_bundle = b })
  unfolding config_from_env ca_bundle_client
  settled env cfg e h = (cfg.ca_bundle, ground arith)

  -- A configuration from the environment has the region of the driver's configuration and the
  -- credentials it was given. Both checksums, the defaults mode, the mode of account endpoints, the
  -- least size of a compressed request and the switch of that compression are those of the
  -- environment where it sets them, and otherwise the defaults of the SDK, for the last two 10240
  -- bytes and off.
  pub config_from_env-defaults :
      (env : EnvConfig) (cfg : AwsConfig)
      → sdk.new_env_config ≡ returned env
      → config_from_env sdk c creds ≡ returned cfg
      → (cfg.region ≡ get_region sdk.getenv c)
        × (cfg.credentials ≡ creds)
        × IsSettled 0 sdk.request_checksum_when_supported env.request_checksum_calculation
            cfg.request_checksum_calculation
        × IsSettled 0 sdk.response_checksum_when_supported env.response_checksum_validation
            cfg.response_checksum_validation
        × IsSettled [] sdk.defaults_mode_legacy env.defaults_mode cfg.defaults_mode
        × IsSettled [] sdk.account_id_endpoint_mode_preferred env.account_id_endpoint_mode
            cfg.account_id_endpoint_mode
        × IsFilled 10_240 env.request_min_compress_size_bytes cfg.request_min_compress_size_bytes
        × IsFilled false env.disable_request_compression cfg.disable_request_compression
  config_from_env-defaults env cfg e h =
      let (b, same) = settled env cfg e h in
      rw same (
        refl,
        refl,
        number_or_default-IsSettled env.request_checksum_calculation
            sdk.request_checksum_when_supported,
        number_or_default-IsSettled env.response_checksum_validation
            sdk.response_checksum_when_supported,
        text_or_default-IsSettled env.defaults_mode sdk.defaults_mode_legacy,
        text_or_default-IsSettled env.account_id_endpoint_mode
            sdk.account_id_endpoint_mode_preferred,
        deref_or-IsFilled env.request_min_compress_size_bytes 10_240,
        deref_or-IsFilled env.disable_request_compression false,
      )
