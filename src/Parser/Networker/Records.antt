-- ===== src/Parser/Networker/Records.antt =====
-- apps/parsers/networker_rest_parser.py: `_normalize_job`, `_normalize_client`, `_normalize_policies`,
-- `_normalize_backup` and `_classify_record`.
use Prim.Native.Char.{Char, code}
use integrated_backup_monito.Prelude.Chain.{◌>>=◌}
use integrated_backup_monito.Prelude.{
  String, Bool, ◌&&◌, Option, none, some, List, [], ◌∷◌, ◌++◌, ◌==◌, string_eq, nat_beq, length,
  if◌then◌else◌,
}
use integrated_backup_monito.Prelude.Int.{ℤ, pos}
use integrated_backup_monito.Prelude.Text.{lower, is_empty, drop_while_end}
use integrated_backup_monito.Prelude.Dict.{Dict, lookup}
use integrated_backup_monito.Value.{
  Value, int, str, arr, obj, Items, nil, cons, Fields, Runtime, find, get, merge, fields, or_else,
}
use integrated_backup_monito.Derived.{string, parse_datetime, isoformat}
use integrated_backup_monito.Derived.Networker.{duration_seconds}
use integrated_backup_monito.Parser.Common.{
  Platform, dicts, items, as_list, to_int, text_or, first_string, value_or_null,
}
use integrated_backup_monito.Parser.Networker.{
  job_status, protection_group, size_bytes, resource_id, strip_policy_suffix, os_family,
  normalize_client_state, attributes,
}

-- `_normalize_job`
abbrev named_client : Runtime → Fields → Bool → String
named_client rt item is_save_job =
    let client_name =
      text_or (string rt (get "clientName" item)) (string rt (get "clientHostname" item)) in
    if is_empty client_name && is_save_job then string rt (get "runOnHost" item) else client_name

abbrev normalized_job_fields :
    Runtime → Platform → Fields → String → String → Option ℤ → List (String × Value)
normalized_job_fields rt p item server source size =
    let state_raw = string rt (get "state" item) in
    let completion_status = string rt (get "completionStatus" item) in
    let exit_code = to_int rt p (get "exitCode" item) in
    let status = job_status completion_status state_raw exit_code in
    let start_time = parse_datetime rt (get "startTime" item) in
    let end_time = parse_datetime rt (get "endTime" item) in
    let job_type = string rt (get "type" item) in
    let is_save_job = lower job_type == "save job" in
    ("server", str server)
    ∷ ("source_networker", str source)
    ∷ ("job_id", or_else (get "id" item) (get "jobId" item))
    ∷ ("name", str (string rt (get "name" item)))
    ∷ ("type", str job_type)
    ∷ ("state", str (text_or state_raw completion_status))
    ∷ ("state_raw", str state_raw)
    ∷ ("completion_status", str completion_status)
    ∷ ("status_raw", str (text_or completion_status state_raw))
    ∷ ("status", str status)
    ∷ ("status_normalized", str status)
    ∷ ("exit_code", value_or_null int exit_code)
    ∷ ("policy_name", str (string rt (get "policyName" item)))
    ∷ ("workflow_name", str (string rt (get "workflowName" item)))
    ∷ (
      "protection_group",
      str (if is_save_job then protection_group p (get "command" item) else ""),
    )
    ∷ ("client_name", str (named_client rt item is_save_job))
    ∷ ("run_on_host", str (string rt (get "runOnHost" item)))
    ∷ ("start_time", isoformat rt start_time)
    ∷ ("end_time", isoformat rt end_time)
    ∷ ("duration_seconds", duration_seconds start_time end_time)
    ∷ ("level", str (string rt (get "level" item)))
    ∷ ("data_size_bytes", value_or_null int size)
    ∷ ("stopped", get "stopped" item)
    ∷ ("root_parent_job_id", get "rootParentJobId" item)
    ∷ ("parent_job_id", get "parentJobId" item)
    ∷ ("previous_job_id", get "previousJobId" item)
    ∷ []

unfoldable pub normalize_job : Runtime → Platform → String → String → Fields → Option Fields
unfolding fields get string or_else lower to_int job_status parse_datetime isoformat
    protection_group size_bytes
normalize_job rt p server source item = do
  size ← size_bytes rt p (get "dataSize" item)
  some (fields (normalized_job_fields rt p item server source size))

-- `_normalize_client`
unfoldable pub normalize_client : Runtime → String → String → Fields → Fields
unfolding fields get string first_string resource_id normalize_client_state os_family
normalize_client rt server source item =
    let hostname = text_or (string rt (get "hostname" item)) (string rt (get "name" item)) in
    let os_name = first_string rt (
      get "operatingSystem" item
      ∷ get "os" item
      ∷ get "clientOS" item
      ∷ get "platform" item
      ∷ []) in
    fields (
      ("server", str server)
      ∷ ("source_networker", str source)
      ∷ ("client_id", str (resource_id rt item))
      ∷ ("resource_id", str (resource_id rt item))
      ∷ ("client_name", str hostname)
      ∷ ("client_state", str (normalize_client_state rt (get "clientState" item)))
      ∷ ("client_os", str os_name)
      ∷ ("client_os_family", str (os_family os_name))
      ∷ ("backup_type", str (string rt (get "backupType" item)))
      ∷ [])

-- `_normalize_policies`
unfoldable pub names_of : Runtime → List Fields → Items
unfolding string get
names_of rt [] = nil
names_of rt (action ∷ actions) = cons (str (string rt (get "name" action))) (names_of rt actions)

unfoldable pub normalize_workflow : Runtime → String → String → Fields → Fields
unfolding fields get string or_else dicts as_list names_of
normalize_workflow rt server policy_name workflow =
    let actions = dicts (as_list (get "actions" workflow)) in
    fields (
      ("server", str server)
      ∷ ("policy_name", str policy_name)
      ∷ ("workflow_name", str (string rt (get "name" workflow)))
      ∷ ("enabled", get "enabled" workflow)
      ∷ ("action_count", int (pos (length actions)))
      ∷ ("actions", arr (names_of rt actions))
      ∷ ("protection_groups", or_else (get "protectionGroups" workflow) (arr nil))
      ∷ ("start_time", get "startTime" workflow)
      ∷ ("end_time", get "endTime" workflow)
      ∷ [])

abbrev workflows_in : Fields → List Fields
workflows_in policy = dicts (as_list (get "workflows" policy))

unfoldable pub normalize_policy : Runtime → String → Fields → Fields
unfolding fields get string dicts as_list resource_id
normalize_policy rt server policy = fields (
    ("server", str server)
    ∷ ("policy_name", str (string rt (get "name" policy)))
    ∷ ("comment", str (string rt (get "comment" policy)))
    ∷ ("workflow_count", int (pos (length (workflows_in policy))))
    ∷ ("resource_id", str (resource_id rt policy))
    ∷ [])

unfoldable pub policy_workflows : Runtime → String → String → List Fields → List Fields
unfolding normalize_workflow
policy_workflows rt server policy_name [] = []
policy_workflows rt server policy_name (w ∷ ws) =
    normalize_workflow rt server policy_name w ∷ policy_workflows rt server policy_name ws

unfoldable pub policies_from : Runtime → String → List Fields → List Fields × List Fields
unfolding normalize_policy policy_workflows get string dicts as_list
policies_from rt server [] = ([], [])
policies_from rt server (policy ∷ rest) =
    let (policies, workflows) = policies_from rt server rest in
    (
      normalize_policy rt server policy ∷ policies,
      policy_workflows rt server (string rt (get "name" policy)) (workflows_in policy) ++ workflows,
    )

unfoldable pub normalize_policies : Runtime → String → Value → List Fields × List Fields
unfolding policies_from items
normalize_policies rt server payload = policies_from rt server (items payload "protectionPolicies")

-- `_normalize_backup`
abbrev attribute_or : Option String → String → String
attribute_or none otherwise = otherwise
attribute_or (some s) otherwise = text_or s otherwise

abbrev named_or_attribute :
    Runtime → Fields → String → Dict String String → String → String → String
named_or_attribute rt item key attrs starred plain = text_or (string rt (get key item)) (
    strip_policy_suffix
      (attribute_or (lookup starred attrs) (attribute_or (lookup plain attrs) "")))

abbrev raw_size : Value → Value
raw_size (obj size) = get "value" size
raw_size v = v

abbrev raw_unit : Runtime → Value → String
raw_unit rt (obj size) = string rt (get "unit" size)
raw_unit rt v = ""

abbrev normalized_backup_fields :
    Runtime → Fields → String → String → Dict String String → Option ℤ → List (String × Value)
normalized_backup_fields rt item server source attrs size =
    let save_set = string rt (get "name" item) in
    ("server", str server)
    ∷ ("source_networker", str source)
    ∷ ("backup_id", str (string rt (get "id" item)))
    ∷ ("client_name", str (string rt (get "clientHostname" item)))
    ∷ ("client_id", str (string rt (get "clientId" item)))
    ∷ (
      "policy_name",
      str (named_or_attribute rt item "policyName" attrs "*policy name" "policy name"),
    )
    ∷ (
      "workflow_name",
      str (
          named_or_attribute rt item "workflowName" attrs "*policy workflow name"
            "policy workflow name"),
    )
    ∷ (
      "action_name",
      str (
          named_or_attribute rt item "actionName" attrs "*policy action name" "policy action name"),
    )
    ∷ ("group", value_or_null str (lookup "group" attrs))
    ∷ ("name", str save_set)
    ∷ ("save_set", str save_set)
    ∷ ("type", str (string rt (get "type" item)))
    ∷ ("level", str (string rt (get "level" item)))
    ∷ ("save_time", isoformat rt (parse_datetime rt (get "saveTime" item)))
    ∷ ("completion_time", isoformat rt (parse_datetime rt (get "completionTime" item)))
    ∷ ("retention_time", isoformat rt (parse_datetime rt (get "retentionTime" item)))
    ∷ ("file_count", get "fileCount" item)
    ∷ ("size_raw", raw_size (get "size" item))
    ∷ ("size_unit_raw", str (raw_unit rt (get "size" item)))
    ∷ ("size_bytes", value_or_null int size)
    ∷ ("instances", or_else (get "instances" item) (arr nil))
    ∷ []

unfoldable pub normalize_backup : Runtime → Platform → String → String → Fields → Option Fields
unfolding fields get string or_else attributes lookup strip_policy_suffix parse_datetime isoformat
    size_bytes
normalize_backup rt p server source item = do
  attrs ← attributes rt (get "attributes" item)
  size ← size_bytes rt p (get "size" item)
  some (fields (normalized_backup_fields rt item server source attrs size))

-- `_classify_record`
abbrev is_dot : Char → Bool
is_dot c = nat_beq (code c) b'.'

abbrev hostname_of : Runtime → Option Value → List (String × Value)
hostname_of rt none = []
hostname_of rt (some name) =
    ("client_hostname", str (drop_while_end is_dot (lower (string rt name)))) ∷ []

abbrev pub classification : Runtime → String → Option Value → List (String × Value)
classification rt source client_name =
    ("source_networker", str source)
    ∷ ("security_domain", str source)
    ∷ ("classification_status", str "matched_source_networker")
    ∷ ("classification_source", str "source_networker")
    ∷ hostname_of rt client_name

unfoldable pub classify_record : Runtime → String → Fields → Fields
unfolding fields merge find string lower drop_while_end
classify_record rt source item =
    merge item (fields (classification rt source (find "client_name" item)))

unfoldable pub classify_all : Runtime → String → List Fields → List Fields
unfolding classify_record
classify_all rt source [] = []
classify_all rt source (item ∷ rest) = classify_record rt source item ∷ classify_all rt source rest
