-- ===== src/Workgroup.antt =====
-- go/wg.go, go/wgtag.go and go/wgconfig.go; Pretty has the text of a configuration.
-- A tag's key and value are never nil: `AddTag` is the only writer.
pub mod Pretty
use athenadriver.Errors.{Error, Outcome, failed, athena_nil_api}
use athenadriver.Base.{ℕ, Bool, true, false, List, [], ◌∷◌, ◌++◌, Option, none, some, Bytes}

pub record Tag : Type 0 where
  pub key : Bytes
  pub value : Bytes

-- `types.WorkGroupConfiguration`, with the fields that the driver sets; `location` stands for the
-- `ResultConfiguration`.
pub record WorkGroupConfiguration : Type 0 where
  pub bytes_scanned_cutoff_per_query : Option ℕ
  pub enforce_work_group_configuration : Option Bool
  pub publish_cloud_watch_metrics_enabled : Option Bool
  pub requester_pays_enabled : Option Bool
  pub location : Option Bytes

-- `Config` and `Tags` are pointers that may be nil.
pub record Workgroup : Type 0 where
  pub name : Bytes
  pub config : Option WorkGroupConfiguration
  pub tags : Option (List Tag)

abbrev pub default_bytes_scanned_cutoff_per_query : ℕ
default_bytes_scanned_cutoff_per_query = 1_073_741_824

unfoldable pub new_wg_tags : List Tag
new_wg_tags = []

unfoldable pub add_tag : List Tag → Bytes → Bytes → List Tag
add_tag tags k v = tags ++ (record { key = k; value = v }) ∷ []

-- `(*WGTags).Get`, on a pointer that may be nil.
unfoldable pub get_tags : Option (List Tag) → List Tag
get_tags none = []
get_tags (some tags) = tags

unfoldable pub get_default_wg_config : WorkGroupConfiguration
get_default_wg_config = record {
  bytes_scanned_cutoff_per_query = some default_bytes_scanned_cutoff_per_query;
  enforce_work_group_configuration = some true;
  publish_cloud_watch_metrics_enabled = some true;
  requester_pays_enabled = some false;
  location = none;
}

unfoldable pub new_wg_config : ℕ → Bool → Bool → Bool → Option Bytes → WorkGroupConfiguration
new_wg_config cutoff enforce publish requester result = record {
  bytes_scanned_cutoff_per_query = some cutoff;
  enforce_work_group_configuration = some enforce;
  publish_cloud_watch_metrics_enabled = some publish;
  requester_pays_enabled = some requester;
  location = result;
}

unfoldable pub new_wg : Bytes → Option WorkGroupConfiguration → Option (List Tag) → Workgroup
new_wg name config tags = record { name = name; config = config; tags = tags }

unfoldable pub new_default_wg :
    Bytes → Option WorkGroupConfiguration → Option (List Tag) → Workgroup
unfolding get_default_wg_config new_wg_tags
new_default_wg name config tags = record {
  name = name;
  config = elim config [ none ↦ some get_default_wg_config | some c ↦ some c ];
  tags = elim tags [ none ↦ some new_wg_tags | some t ↦ some t ];
}

-- `athena.CreateWorkGroupInput`; without tags its list is nil.
pub record CreateWorkGroupInput : Type 0 where
  pub configuration : Option WorkGroupConfiguration
  pub name : Bytes
  pub tags : Option (List Tag)

abbrev tags_input : List Tag → Option (List Tag)
tags_input [] = none
tags_input (t ∷ ts) = some (t ∷ ts)

-- `CreateWGRemotely`, over the call `CreateWorkGroup` of the service.
unfoldable pub create_wg_remotely : (CreateWorkGroupInput → Option Error) → Workgroup → Option Error
unfolding get_tags
create_wg_remotely create_work_group w =
    create_work_group
      (record { configuration = w.config; name = w.name; tags = tags_input (get_tags w.tags) })

-- `getWG`, over the call `GetWorkGroup` of a service that may be nil, as whether it is enabled.
unfoldable pub get_wg : Option (Bytes → Outcome Bool) → Bytes → Outcome Bool
get_wg none name = failed athena_nil_api
get_wg (some get_work_group) name = get_work_group name
