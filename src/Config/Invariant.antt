-- ===== src/Config/Invariant.antt =====
-- The configurations that `NewDefaultConfig` of go/config.go makes, and the setters keep, are ones
-- that the DSN can carry.
use mathlib.Core.Path.{subst}
use athenadriver.Base.{
  true, false, not, [], ◌∷◌, Option, none, some, if◌then◌else◌, Bytes, codes, bytes_eq, ◌≡◌, inl,
  inr, refl, ap, ◌∙◌, arith, Bool-cases,
}
use athenadriver.Config.{
  Config, put, get, is_empty, is_valid, new_no_ops_config, set_output_bucket, set_region,
  set_access_id, set_secret_access_key, set_result_poll_interval_seconds, new_default_config,
  then_set,
}
use athenadriver.Decimal.{format_int, pos}
use athenadriver.Errors.{Error}
use athenadriver.ServiceLimit.{pool_interval}
use athenadriver.Strings.{has_prefix}
use athenadriver.Url.Escape.{AllBytes}
use athenadriver.Url.Invariant.{put-IsQuery}
use athenadriver.Url.RoundTrip.{IsQuery}
use athenadriver.Url.{get-put}
use athenadriver.Url

-- The values are a query, the scheme is `s3` and there is a region.
pub record IsSound (c : Config) : Type 0 where
  pub is_query : IsQuery c.values
  pub is_scheme : bytes_eq c.scheme (codes "s3") ≡ true
  pub has_region : is_empty (get c (codes "region")) ≡ false

pub put-IsSound :
    (c : Config) (k v : Bytes)
    → AllBytes k
    → AllBytes v
    → bytes_eq k (codes "region") ≡ false
    → IsSound c
    → IsSound (put c k v)
put-IsSound c k v a b e h = record {
  is_query = put-IsQuery c.values k v a b h.is_query;
  is_scheme = h.is_scheme;
  has_region = ap is_empty (get-put c.values k (codes "region") v) ∙ rw e h.has_region;
}

put_region-IsSound :
    (c : Config) (v : Bytes)
    → AllBytes v
    → is_empty v ≡ false
    → IsSound c
    → IsSound (put c (codes "region") v)
put_region-IsSound c v b e h = record {
  is_query = put-IsQuery c.values (codes "region") v (omega arith) b h.is_query;
  is_scheme = h.is_scheme;
  has_region = ap is_empty (get-put c.values (codes "region") (codes "region") v) ∙ e;
}

new_no_ops_config-IsSound : IsSound new_no_ops_config
unfolding new_no_ops_config Url.put Url.get Url.lookup
new_no_ops_config-IsSound = record {
  is_query = record {
    has_bytes = omega arith;
    has_unique_keys = (refl, (refl, (refl, (refl, tt))));
    has_no_empty_entry = (cc, (cc, (cc, (cc, tt))));
  };
  is_scheme = refl;
  has_region = refl;
}

-- The configuration is sound, unless there is an error.
abbrev SoundResult : Config × Option Error → Type 0
SoundResult (c, none) = IsSound c
SoundResult (c, some e) = Unit {0}

then_set-Sound :
    (r : Config × Option Error) (f : Config → Config × Option Error)
    → SoundResult r
    → ((c : Config) → IsSound c → SoundResult (f c))
    → SoundResult (then_set r f)
then_set-Sound (c, none) f h k = k c h
then_set-Sound (c, some e) f h k = tt

placed-IsSound : (c : Config) (h p : Bytes) → IsSound c → IsSound (record c { host = h; path = p })
placed-IsSound c h p s = record {
  is_query = s.is_query;
  is_scheme = s.is_scheme;
  has_region = s.has_region;
}

set_output_bucket-Sound : (c : Config) (o : Bytes) → IsSound c → SoundResult (set_output_bucket c o)
unfolding set_output_bucket
set_output_bucket-Sound c o h = elim (Bool-cases (has_prefix o (codes "s3://"))) [
  | inl e ↦ simp e (placed-IsSound c _ _ h)
  | inr e ↦ simp e tt
]

set_region-Sound : (c : Config) (o : Bytes) → AllBytes o → IsSound c → SoundResult (set_region c o)
unfolding set_region
set_region-Sound c [] b h = tt
set_region-Sound c (d ∷ o) b h = put_region-IsSound c (d ∷ o) b refl h

set_access_id-Sound :
    (c : Config) (o : Bytes)
    → AllBytes o
    → IsSound c
    → SoundResult (if not (is_empty o) then set_access_id c o else (c, none))
unfolding set_access_id
set_access_id-Sound c [] b h = h
set_access_id-Sound c (d ∷ o) b h = put-IsSound c (codes "accessID") (d ∷ o) (omega arith) b refl h

set_secret_access_key-Sound :
    (c : Config) (o : Bytes)
    → AllBytes o
    → IsSound c
    → SoundResult (if not (is_empty o) then set_secret_access_key c o else (c, none))
unfolding set_secret_access_key
set_secret_access_key-Sound c [] b h = h
set_secret_access_key-Sound c (d ∷ o) b h =
    put-IsSound c (codes "secretAccessKey") (d ∷ o) (omega arith) b refl h

interval-AllBytes : AllBytes (format_int (pos pool_interval))
unfolding format_int
interval-AllBytes = omega arith

set_interval-Sound :
    (c : Config)
    → IsSound c
    → SoundResult (set_result_poll_interval_seconds c (pos pool_interval), none)
unfolding set_result_poll_interval_seconds
set_interval-Sound c h =
    put-IsSound c (codes "resultPollIntervalSeconds") (format_int (pos pool_interval)) (omega arith)
      interval-AllBytes refl h

new_default_config-Sound :
    (bucket region access_id secret : Bytes)
    → AllBytes region
    → AllBytes access_id
    → AllBytes secret
    → SoundResult (new_default_config bucket region access_id secret)
unfolding new_default_config
new_default_config-Sound bucket region access_id secret r a s =
    then_set-Sound _ _ (set_output_bucket-Sound _ bucket new_no_ops_config-IsSound) λ c h.
      then_set-Sound _ _ (set_region-Sound c region r h) λ d i.
        then_set-Sound _ _ (set_access_id-Sound d access_id a i) λ e j.
          then_set-Sound _ _ (set_secret_access_key-Sound e secret s j)
            λ g k. set_interval-Sound g k

pub set_output_bucket-IsSound :
    (c : Config) (o : Bytes) → IsSound c → IsSound (set_output_bucket c o).0
unfolding set_output_bucket
set_output_bucket-IsSound c o h = elim (Bool-cases (has_prefix o (codes "s3://"))) [
  | inl e ↦ simp e (placed-IsSound c _ _ h)
  | inr e ↦ simp e h
]

pub new_default_config-IsSound :
    (bucket region access_id secret : Bytes) (c : Config)
    → AllBytes region
    → AllBytes access_id
    → AllBytes secret
    → new_default_config bucket region access_id secret ≡ (c, none)
    → IsSound c
new_default_config-IsSound bucket region access_id secret c r a s h =
    subst (λ p. SoundResult p) h (new_default_config-Sound bucket region access_id secret r a s)

pub IsSound-is_valid : (c : Config) → IsSound c → is_valid c ≡ true
unfolding is_valid
IsSound-is_valid c h = rw (h.is_scheme, h.has_region)

-- A configuration that `NewDefaultConfig` makes without an error, of a region and keys that are
-- texts of bytes, is valid, and its values are ones that a DSN carries: every key stands once, and
-- has a value.
pub new_default_config-IsQuery :
    (bucket region access_id secret : Bytes) (c : Config)
    → AllBytes region
    → AllBytes access_id
    → AllBytes secret
    → new_default_config bucket region access_id secret ≡ (c, none)
    → IsQuery c.values × (is_valid c ≡ true)
new_default_config-IsQuery bucket region access_id secret c r a s h =
    let sound = new_default_config-IsSound bucket region access_id secret c r a s h in
    (sound.is_query, IsSound-is_valid c sound)
