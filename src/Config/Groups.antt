-- ===== src/Config/Groups.antt =====
-- The workgroup and the session tags, which go/config.go keeps as texts: `|` in front of or
-- between the tags, and a backquote between key and value. `wg_config_string` is the parameter
-- for `wgConfigString`, which renders an SDK record by reflection; nothing reads its text back.
use athenadriver.Base.{
  List, [], ◌∷◌, ◌++◌, Option, none, some, if◌then◌else◌, Bytes, codes, bytes_eq,
}
use athenadriver.Config.{Config, get, put, is_empty, or_else, get_from_env_val}
use athenadriver.Errors.{Error, config_wg_pointer, Outcome, returned, panics, ◌>>=◌}
use athenadriver.Strings.{split}
use athenadriver.Url
use athenadriver.Workgroup.{
  Tag, Workgroup, WorkGroupConfiguration, new_wg_tags, add_tag, get_default_wg_config,
}

-- The loop of `SetWorkGroup` over the tags.
unfoldable pub tag_text : Bytes → List Tag → Bytes
tag_text s [] = s
tag_text s (t ∷ ts) = tag_text (s ++ (b'|' ∷ (t.key ++ (b'`' ∷ t.value)))) ts

abbrev pub put_tags : Config → Option (List Tag) → Config
put_tags c none = c
put_tags c (some tags) = put c (codes "tag") (tag_text (get c (codes "tag")) tags)

abbrev pub or_default : Option WorkGroupConfiguration → WorkGroupConfiguration
or_default none = get_default_wg_config
or_default (some c) = c

module _ (wg_config_string : WorkGroupConfiguration → Bytes) where
  -- `SetWorkGroup` also fills in the configuration of the workgroup it is given.
  unfoldable pub set_work_group :
      Config → Option Workgroup → Config × Option Workgroup × Option Error
  unfolding tag_text
  set_work_group c none = (c, none, some config_wg_pointer)
  set_work_group c (some w) =
      let named = put c (codes "workgroupName") w.name in
      let tagged = put_tags named w.tags in
      let config = or_default w.config in
      (
        put tagged (codes "workgroupConfig") (wg_config_string config),
        some (record w { config = some config }),
        none,
      )

-- `t.AddTag(ts[0], ts[1])`
abbrev pub add_split : List Tag → List Bytes → Outcome (List Tag)
add_split t (k ∷ v ∷ rest) = returned (add_tag t k v)
add_split t _ = panics

unfoldable pub read_tags : List Tag → List Bytes → Outcome (List Tag)
read_tags t [] = returned t
read_tags t (tag ∷ tags) = add_split t (split tag b'`') >>= λ t'. read_tags t' tags

-- The text without its first byte, cut at each bar.
abbrev pub parse_tags : Bytes → Outcome (List Tag)
parse_tags [] = returned new_wg_tags
parse_tags (b ∷ text) = read_tags new_wg_tags (split text b'|')

unfoldable pub get_workgroup : Config → Outcome Workgroup
unfolding read_tags
get_workgroup c = parse_tags (get c (codes "tag")) >>= λ tags. returned (record {
  name = get c (codes "workgroupName");
  config = some get_default_wg_config;
  tags = some tags;
})

unfoldable pub set_session_tag : Config → Bytes → Bytes → Config
set_session_tag c key value =
    let text = get c (codes "sessionTags") in
    put c (codes "sessionTags")
      (if is_empty text then key ++ (b'`' ∷ value) else text ++ (b'|' ∷ (key ++ (b'`' ∷ value))))

-- A Go map from texts to texts: a later write to a key wins.
unfoldable pub put_tag : List Tag → Bytes → Bytes → List Tag
put_tag [] k v = record { key = k; value = v } ∷ []
put_tag (t ∷ ts) k v =
    if bytes_eq t.key k then record { key = k; value = v } ∷ ts else t ∷ put_tag ts k v

-- A pair without exactly one backquote is dropped.
abbrev pub put_pair : List Tag → List Bytes → List Tag
put_pair m (k ∷ v ∷ []) = put_tag m k v
put_pair m _ = m

unfoldable pub read_pairs : List Tag → List Bytes → List Tag
unfolding put_tag
read_pairs m [] = m
read_pairs m (pair ∷ pairs) = read_pairs (put_pair m (split pair b'`')) pairs

-- `none` is the nil map.
unfoldable pub get_session_tags : (Bytes → Bytes) → Config → Option (List Tag)
unfolding read_pairs get_from_env_val
get_session_tags getenv c =
    let text =
      or_else (get c (codes "sessionTags"))
        (get_from_env_val getenv (codes "AWS_SESSION_TAGS" ∷ [])) in
    if is_empty text then none else some (read_pairs [] (split text b'|'))

unfoldable pub clear_session_tags : Config → Config
clear_session_tags c = record c { values = Url.del c.values (codes "sessionTags") }
