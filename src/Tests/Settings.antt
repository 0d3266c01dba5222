-- ===== src/Tests/Settings.antt =====
-- The theorems on the settings of a configuration at concrete inputs.
use athenadriver.ServiceLimit.{ServiceLimitOverride}
use athenadriver.Decimal.{pos}
use athenadriver.Base.{true, [], ◌∷◌, none, some, Bytes, codes, ◌≡◌, refl, arith, inl, inr}
use athenadriver.Config
use athenadriver.Config.Flags.{
  is_missing_as_empty_string, set_missing_as_empty_string, is_missing_as_default,
  set_missing_as_default, is_missing_as_nil, set_missing_as_nil, is_wg_remote_creation_allowed,
  set_wg_remote_creation_allowed, is_metrics_enabled, set_metrics, is_money_wise, set_money_wise,
  is_logging_enabled, set_logging, is_read_only, set_read_only,
}
use athenadriver.Config.Flags.RoundTrip.{flag-set_flag}
use athenadriver.Config.Groups.{
  get_workgroup, set_work_group, get_session_tags, set_session_tag, put_tag,
}
use athenadriver.Config.Laws.{get_service_limit_override-set}
use athenadriver.Config.TagLaws.{
  AllClean, IsClean, own_tags, get_workgroup-set_work_group, get_session_tags-set_session_tag,
}
use athenadriver.Config.{
  Config, new_no_ops_config, set_output_bucket, get_output_bucket, set_service_limit_override,
  get_service_limit_override,
}
use athenadriver.Errors.{returned}
use athenadriver.Url
use athenadriver.Url.{get, lookup}
use athenadriver.Workgroup.{Tag, Workgroup, get_tags, get_default_wg_config}

abbrev env_tag : Tag
env_tag = record { key = codes "e"; value = codes "p" }

env_tag-IsClean : IsClean env_tag
env_tag-IsClean = ((omega arith, tt), (omega arith, tt), (omega arith, tt), (omega arith, tt))

abbrev team : Workgroup
team = record {
  name = codes "team";
  config = none;
  tags = some ((record { key = codes "e"; value = codes "p" }) ∷ []);
}

no_tags : Config.get new_no_ops_config (codes "tag") ≡ []
unfolding new_no_ops_config Url.get Url.put
no_tags = refl

clean : AllClean (get_tags team.tags)
unfolding get_tags
clean = (env_tag-IsClean, tt)

get_workgroup-set_work_group_example :
    get_workgroup (set_work_group (λ _. codes "cfg") new_no_ops_config (some team)).0
    ≡ returned (record {
      name = team.name;
      config = some get_default_wg_config;
      tags = some (get_tags team.tags);
    })
get_workgroup-set_work_group_example =
    get_workgroup-set_work_group (λ _. codes "cfg") new_no_ops_config team no_tags clean

abbrev no_env : Bytes → Bytes
no_env k = []

get_session_tags-set_session_tag_example :
    get_session_tags no_env (set_session_tag new_no_ops_config env_tag.key env_tag.value)
    ≡ some (put_tag (own_tags new_no_ops_config) env_tag.key env_tag.value)
get_session_tags-set_session_tag_example =
    get_session_tags-set_session_tag no_env new_no_ops_config env_tag env_tag-IsClean

abbrev limits : ServiceLimitOverride
limits = record { ddl_query_timeout = pos 0; dml_query_timeout = pos 90 }

get_service_limit_override-set_example :
    get_service_limit_override (set_service_limit_override new_no_ops_config limits) ≡ limits
get_service_limit_override-set_example =
    get_service_limit_override-set new_no_ops_config limits (omega arith, inl refl)
      (omega arith, inr refl)

no_ops-scheme : new_no_ops_config.scheme ≡ codes "s3"
unfolding new_no_ops_config
no_ops-scheme = refl

flag-set_flag_example :
    (is_missing_as_empty_string (set_missing_as_empty_string new_no_ops_config true) ≡ true)
    × (is_missing_as_default (set_missing_as_default new_no_ops_config true) ≡ true)
    × (is_missing_as_nil (set_missing_as_nil new_no_ops_config true) ≡ true)
    × (is_wg_remote_creation_allowed (set_wg_remote_creation_allowed new_no_ops_config true) ≡ true)
    × (is_metrics_enabled (set_metrics new_no_ops_config true) ≡ true)
    × (is_read_only (set_read_only new_no_ops_config true) ≡ true)
    × (is_money_wise (set_money_wise new_no_ops_config true) ≡ true)
    × (is_logging_enabled (set_logging new_no_ops_config true) ≡ true)
flag-set_flag_example = flag-set_flag new_no_ops_config true
