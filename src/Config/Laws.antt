-- ===== src/Config/Laws.antt =====
-- The bucket, the service limits and the defaults of a configuration.
use athenadriver.Base.{
  ℕ, suc, false, [], ◌∷◌, ◌++◌, none, Bytes, codes, ◌≡◌, refl, ap, ◌∙◌, ◌⊎◌, inl, inr, take_append,
  length, drop,
}
use athenadriver.Config.{
  Config, set_output_bucket, get_output_bucket, set_service_limit_override,
  get_service_limit_override,
}
use athenadriver.Decimal.RoundTrip.{IsInt64, atoi-format_int}
use athenadriver.Decimal.{ℤ, pos, format_int, atoi}
use athenadriver.ServiceLimit.{
  ServiceLimitOverride, too_small, set_ddl_query_timeout, set_dml_query_timeout,
  new_service_limit_override,
}
use athenadriver.Strings.Split.{Lacks, index_byte-append}
use athenadriver.Strings.{has_prefix}
use athenadriver.Url
use athenadriver.Url.{get-put}

-- What the setters let into a field: 0, which means the default, or what is not too small.
abbrev pub IsSettable : ℤ → Type 0
IsSettable z = IsInt64 z × ((z ≡ pos 0) ⊎ (too_small z ≡ false))

set_ddl_settable :
    (c : ServiceLimitOverride) (z : ℤ)
    → c.ddl_query_timeout ≡ pos 0
    → (z ≡ pos 0) ⊎ (too_small z ≡ false)
    → (set_ddl_query_timeout c z).0 ≡ record c { ddl_query_timeout = z }
unfolding set_ddl_query_timeout
set_ddl_settable c z e (inl h) = rw h (λ i. record c { ddl_query_timeout = e i })
set_ddl_settable c z e (inr h) = rw h

set_dml_settable :
    (c : ServiceLimitOverride) (z : ℤ)
    → c.dml_query_timeout ≡ pos 0
    → (z ≡ pos 0) ⊎ (too_small z ≡ false)
    → (set_dml_query_timeout c z).0 ≡ record c { dml_query_timeout = z }
unfolding set_dml_query_timeout
set_dml_settable c z e (inl h) = rw h (λ i. record c { dml_query_timeout = e i })
set_dml_settable c z e (inr h) = rw h

abbrev set_both : ℤ → ℤ → ServiceLimitOverride
set_both d m = (set_dml_query_timeout (set_ddl_query_timeout new_service_limit_override d).0 m).0

set_both_settable :
    (d m : ℤ)
    → (d ≡ pos 0) ⊎ (too_small d ≡ false)
    → (m ≡ pos 0) ⊎ (too_small m ≡ false)
    → set_both d m ≡ record { ddl_query_timeout = d; dml_query_timeout = m }
unfolding new_service_limit_override
set_both_settable d m h k =
    ap (λ c. (set_dml_query_timeout c m).0) (set_ddl_settable new_service_limit_override d refl h)
    ∙ set_dml_settable (record { ddl_query_timeout = d; dml_query_timeout = pos 0 }) m refl k

read_back :
    (m : Url.Values) (k : Bytes) (z : ℤ)
    → IsInt64 z
    → Url.get m k ≡ format_int z
    → (atoi (Url.get m k)).0 ≡ z
read_back m k z h e = ap (λ s. (atoi s).0) e ∙ ap (λ r. r.0) (atoi-format_int z h)

-- Every service limit override that the setters can make is read back from a configuration
-- exactly as it was set.
pub get_service_limit_override-set :
    (c : Config) (o : ServiceLimitOverride)
    → IsSettable o.ddl_query_timeout
    → IsSettable o.dml_query_timeout
    → get_service_limit_override (set_service_limit_override c o) ≡ o
unfolding get_service_limit_override set_service_limit_override
get_service_limit_override-set c o h k =
    let ddl = codes "DDLQueryTimeout" in
    let dml = codes "DMLQueryTimeout" in
    let first = Url.put c.values ddl (format_int o.ddl_query_timeout) in
    let both = Url.put first dml (format_int o.dml_query_timeout) in
    let d = read_back both ddl o.ddl_query_timeout h.0 (
      get-put first dml ddl (format_int o.dml_query_timeout)
      ∙ get-put c.values ddl ddl (format_int o.ddl_query_timeout)) in
    let m =
      read_back both dml o.dml_query_timeout k.0
        (get-put first dml dml (format_int o.dml_query_timeout)) in
    (λ i. set_both (d i) (m i)) ∙ set_both_settable o.ddl_query_timeout o.dml_query_timeout h.1 k.1

drop_behind : (s rest : Bytes) (b : ℕ) → drop (suc (length s)) (s ++ b ∷ rest) ≡ rest
drop_behind [] rest b = refl
drop_behind (c ∷ s) rest b = drop_behind s rest b

-- A bucket `s3://host/path`, with no slash in the host and none at the start of the path, is
-- read back as it was set.
get_output_bucket-set_output_bucket :
    (c : Config) (host path : Bytes)
    → c.scheme ≡ codes "s3"
    → Lacks b'/' host
    → has_prefix path (codes "/") ≡ false
    → let url = codes "s3://" ++ (host ++ (b'/' ∷ path)) in
      ((set_output_bucket c url).1 ≡ none) × (get_output_bucket (set_output_bucket c url).0 ≡ url)
unfolding get_output_bucket set_output_bucket
get_output_bucket-set_output_bucket c host path s h p =
    rw (index_byte-append host path b'/' h)
      (refl, rw (take_append host (b'/' ∷ path), drop_behind host path b'/', p, s))
