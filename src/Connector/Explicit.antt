-- ===== src/Connector/Explicit.antt =====
-- go/connector.go: a connection whose configuration holds credentials, and the settings that
-- `configFromEnv` gives it.
use athenadriver.Base.{
  true, ◌⊎◌, ◌∷◌, false, not, [], if◌then◌else◌, codes, ◌≡◌, refl, ap, ◌∙◌, sym, Bool-cases, inl,
  inr,
}
use athenadriver.Config.{Config, is_empty, get_access_id, get_role_arn}
use athenadriver.Connector.{
  connect, parse_bool, create_base_config, load_config_with_credentials, config_from_env,
  static_credentials, assume_role, profile_options,
}
use athenadriver.Sdk.{Sdk, AwsConfig, LoadOptions, Loading, ◌>>=◌, pure}
use athenadriver.Errors.{Outcome, returned, failed, panics, unfinished}

-- The SDK with another reading of the shared configuration.
abbrev pub with_loader : Sdk → (LoadOptions → Outcome AwsConfig) → Sdk
with_loader sdk f = record sdk { load_default_config = f }

module _ (sdk : Sdk) (c : Config) where
  load-base :
      is_empty (get_access_id sdk.getenv c) ≡ false
      → create_base_config sdk c ≡ ([], config_from_env sdk c (static_credentials sdk c))
  unfolding create_base_config load_config_with_credentials
  load-base h = rw h

  assume-loads : (o : Outcome AwsConfig) → (pure o >>= λ b. assume_role sdk c b).0 ≡ []
  unfolding load_config_with_credentials
  assume-loads (returned b) = refl
  assume-loads (failed e) = refl
  assume-loads panics = refl
  assume-loads unfinished = refl

  -- What `connect` is made of when the access ID is set.
  abbrev explicit : Loading AwsConfig
  explicit =
      let base = config_from_env sdk c (static_credentials sdk c) in
      if not (is_empty (get_role_arn sdk.getenv c))
      then (pure base >>= λ b. assume_role sdk c b)
      else pure base

  connect-base :
      parse_bool (sdk.getenv (codes "AWS_SDK_LOAD_CONFIG")) ≡ false
      → is_empty (get_access_id sdk.getenv c) ≡ false
      → connect sdk c ≡ explicit
  unfolding connect
  connect-base h l = rw (h, load-base l)

connect-shared :
    (sdk : Sdk) (c : Config)
    → parse_bool (sdk.getenv (codes "AWS_SDK_LOAD_CONFIG")) ≡ true
    → connect sdk c ≡ (profile_options sdk c ∷ [], sdk.load_default_config (profile_options sdk c))
unfolding connect
connect-shared sdk c h = rw h

explicit-loads : (sdk : Sdk) (c : Config) → (explicit sdk c).0 ≡ []
explicit-loads sdk c = elim (Bool-cases (is_empty (get_role_arn sdk.getenv c))) [
  | inl e ↦ rw e
  | inr e ↦ rw (e, assume-loads sdk c (config_from_env sdk c (static_credentials sdk c)))
]

explicit-with_loader :
    (sdk : Sdk) (f : LoadOptions → Outcome AwsConfig) (c : Config)
    → explicit (with_loader sdk f) c ≡ explicit sdk c
unfolding config_from_env load_config_with_credentials
explicit-with_loader sdk f c = refl

-- A connection whose access ID is set, with or without a role. With `AWS_SDK_LOAD_CONFIG`, it still
-- makes one load, of the shared configuration with the configured profile, and has the outcome of
-- that load. Without it, it makes no load, and its outcome is the same whatever a load would have
-- given.
pub connect-with_loader :
    (sdk : Sdk) (f : LoadOptions → Outcome AwsConfig) (c : Config)
    → is_empty (get_access_id sdk.getenv c) ≡ false
    → ((parse_bool (sdk.getenv (codes "AWS_SDK_LOAD_CONFIG")) ≡ true)
        × (connect sdk c
            ≡ (profile_options sdk c ∷ [], sdk.load_default_config (profile_options sdk c))))
      ⊎ ((parse_bool (sdk.getenv (codes "AWS_SDK_LOAD_CONFIG")) ≡ false)
          × ((connect sdk c).0 ≡ [])
          × (connect (with_loader sdk f) c ≡ connect sdk c))
connect-with_loader sdk f c l =
    elim (Bool-cases (parse_bool (sdk.getenv (codes "AWS_SDK_LOAD_CONFIG")))) [
      | inl h ↦ inl (h, connect-shared sdk c h)
      | inr h ↦ inr (
        h,
        ap (λ p. p.0) (connect-base sdk c h l) ∙ explicit-loads sdk c,
        connect-base (with_loader sdk f) c h l
            ∙ explicit-with_loader sdk f c
            ∙ sym (connect-base sdk c h l),
      )
    ]
