-- ===== src/Tests/Commands.antt =====
-- The theorems on pseudo commands, workgroups and their texts at concrete inputs.
use athenadriver.Base.{
  true, false, [], ◌∷◌, ◌++◌, some, none, Bytes, codes, replicate, ◌≡◌, ◌↔◌, refl,
}
use athenadriver.Config.{new_no_ops_config}
use athenadriver.Decimal.{pos}
use athenadriver.Errors.{returned}
use athenadriver.Query.Commands.{behind_group, query_context-is_qid}
use athenadriver.Query.Group.{IsUsable, resolve_group_iff}
use athenadriver.Query.{
  get_group, query_context, resolve_group, is_qid, fetch_rows, status_then, stop_then,
}
use athenadriver.Tests.{service, no_digits, read_only_config}
use athenadriver.Workgroup.Pretty.Render.{render, wg_config_string-render}
use athenadriver.Workgroup.Pretty.{
  GoData, struct, pointer, nil_pointer, integer, boolean, string, field, no_field, wg_config_string,
}
use athenadriver.Workgroup.{Workgroup}

abbrev qid : Bytes
qid = replicate 36 b'a'

qid-is_qid : is_qid qid ≡ true
unfolding is_qid
qid-is_qid = refl

query_context-is_qid_example :
    (query_context no_digits read_only_config service qid []
      ≡ behind_group read_only_config service (fetch_rows service qid))
    × (query_context no_digits read_only_config service (codes "pc:get_query_id " ++ qid) []
        ≡ behind_group read_only_config service (fetch_rows service qid))
    × (query_context no_digits read_only_config service (codes "pc:get_query_id_status " ++ qid) []
        ≡ behind_group read_only_config service (status_then service qid))
    × (query_context no_digits read_only_config service (codes "pc:stop_query_id " ++ qid) []
        ≡ behind_group read_only_config service (stop_then service qid))
query_context-is_qid_example =
    query_context-is_qid no_digits read_only_config service qid qid-is_qid

abbrev team : Workgroup
team = record { name = codes "team"; config = none; tags = none }

resolve_group_iff_example :
    (resolve_group new_no_ops_config service team
      ≡ (get_group (codes "team") ∷ [], returned (codes "team")))
    ↔ IsUsable new_no_ops_config service team (codes "team") (get_group (codes "team") ∷ [])
resolve_group_iff_example =
    resolve_group_iff new_no_ops_config service team (codes "team") (get_group (codes "team") ∷ [])

abbrev quoted : Bytes → Bytes
quoted s = codes "\"" ++ s ++ codes "\""

abbrev settings : GoData
settings = struct (
    field true (codes "BytesScannedCutoffPerQuery") (pointer (integer (pos 100))) (
      field true (codes "ExecutionRole") nil_pointer (
        field true (codes "EngineVersion")
          (pointer
            (struct (field true (codes "SelectedEngineVersion") (string (codes "AUTO")) no_field)))
          (field false (codes "noSmithyDocumentSerde") (boolean true) no_field))))

wg_config_string-render_example :
    (wg_config_string quoted (some settings) ≡ render quoted settings 0)
    × (wg_config_string quoted none ≡ render quoted (struct no_field) 0)
wg_config_string-render_example = wg_config_string-render quoted settings

settings_text :
    wg_config_string quoted (some settings)
    ≡ returned (
        codes
          "{\n  BytesScannedCutoffPerQuery: 100,\n  EngineVersion: {\n    SelectedEngineVersion: \"AUTO\"\n  }\n}")
unfolding wg_config_string athenadriver.Decimal.format_int
settings_text = refl
