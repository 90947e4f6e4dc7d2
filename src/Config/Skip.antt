-- ===== src/Config/Skip.antt =====
-- apps/core/config.py, `CollectorConfig.skip_reason`. Whether a path is a file is a parameter.
use integrated_backup_monito.Prelude.{
  ◌<>◌, String, Bool, true, false, ◌&&◌, ◌||◌, not, Option, none, some, List, [], ◌∷◌, ◌==◌,
  string_eq, if◌then◌else◌,
}
use integrated_backup_monito.Prelude.Int.{pos, negsuc, leb_ℤ}
use integrated_backup_monito.Prelude.Text.{is_empty, show_ℤ}
use integrated_backup_monito.Value.{
  Float, finite, infinity, Value, null, real, str, obj, Fields, end, field, Runtime, fields,
}
use integrated_backup_monito.Schedule.{ScheduleConfig, skip_reason as schedule_skip_reason}
use integrated_backup_monito.Lookup.Result.{Result, ok, value_error}
use integrated_backup_monito.Lookup.Models.{validate_source_networker}
use integrated_backup_monito.Config.Placeholder.{has_unfilled_values, has_unfilled_fields}
use integrated_backup_monito.Config.Collector.{CollectorConfig, effective_schedules}

-- `if test: return reason`
abbrev pub return_if : Bool → String → Option String → Option String
return_if true reason rest = some reason
return_if false reason rest = rest

abbrev pub optional : Option String → Value
optional none = null
optional (some s) = str s

-- `bool(text)`, `bool(dict)`
abbrev pub is_given : Option String → Bool
is_given none = false
is_given (some s) = not (is_empty s)

abbrev pub has_items : Fields → Bool
has_items end = false
has_items (field k v fs) = true

-- `x < 0`
abbrev pub is_negative : Float → Bool
is_negative (finite (negsuc n) e) = true
is_negative (infinity negative) = negative
is_negative _ = false

-- `_snmp_skip_reason`
unfoldable pub snmp_skip_reason : CollectorConfig → Option String
unfolding has_unfilled_values fields
snmp_skip_reason c =
    return_if
      (has_unfilled_fields (
        fields (
          ("host", optional c.host)
          ∷ ("community", optional c.community)
          ∷ ("oids", obj c.oids)
          ∷ ("walk_oids", obj c.walk_oids)
          ∷ [])))
      "SNMP config contains TO_BE_FILLED values"
      (return_if (not (has_items c.oids) && not (has_items c.walk_oids)) "SNMP OID list is empty"
        none)

-- `_rest_skip_reason`: the values that are required of each type, and the checks that only it has.
abbrev pub configured_endpoints : Fields → List (String × Value)
configured_endpoints end = []
configured_endpoints (field k v fs) = ("endpoints", obj (field k v fs)) ∷ []

abbrev pub append_required : List (String × Value) → List (String × Value) → List (String × Value)
append_required [] after = after
append_required (r ∷ rs) after = r ∷ append_required rs after

unfoldable pub rest_required : CollectorConfig → List (String × Value)
rest_required c =
    ("base_url", optional c.base_url)
    ∷ (if c.target_type == "i6000"
        then ("username", optional c.username)
          ∷ ("password", optional c.password)
          ∷ ("endpoints", obj c.endpoints)
          ∷ []
        else if c.target_type == "Networker"
        then append_required (configured_endpoints c.endpoints) (
            ("source_networker", optional c.source_networker)
            ∷ ("username", optional c.username)
            ∷ ("password", optional c.password)
            ∷ [])
        else if c.target_type == "ZFS"
        then configured_endpoints c.endpoints
        else ("endpoint", optional c.endpoint) ∷ [])

abbrev pub return_error : Result String → Option String → Option String
return_error (ok source) rest = rest
return_error (value_error message) rest = some message

abbrev given_file : Option String → (String → Bool) → Bool
given_file none is_file = true
given_file (some path) is_file = is_file path

abbrev path_text : Option String → String
path_text none = "None"
path_text (some path) = path

unfoldable pub networker_checks :
    Runtime → (String → Bool) → CollectorConfig → Option String → Option String
unfolding validate_source_networker
networker_checks rt is_file c rest =
    return_if (leb_ℤ c.networker_query_window_minutes (pos 0))
      ("invalid rest.query_window_minutes: " <> show_ℤ c.networker_query_window_minutes)
      (return_if (leb_ℤ c.networker_jobs_query_window_minutes (pos 0))
        ("invalid rest.jobs_query_window_minutes: " <> show_ℤ c.networker_jobs_query_window_minutes)
        (return_if (leb_ℤ c.networker_backups_query_window_minutes (pos 0))
          ("invalid rest.backups_query_window_minutes: "
            <> show_ℤ c.networker_backups_query_window_minutes)
          (return_error (validate_source_networker rt (optional c.source_networker)) (
            return_if (c.verify_tls && is_given c.ca_certs && not (given_file c.ca_certs is_file))
              ("REST CA certificate does not exist: " <> path_text c.ca_certs) rest))))

unfoldable pub type_checks :
    Runtime → (String → Bool) → CollectorConfig → Option String → Option String
unfolding networker_checks
type_checks rt is_file c rest =
    if c.target_type == "i6000"
    then rest
    else if c.target_type == "Networker"
    then networker_checks rt is_file c rest
    else if c.target_type == "ZFS"
    then return_if (not (is_given c.token) && not (is_given c.username && is_given c.password))
        "REST config requires token or username/password" rest
    else rest

unfoldable pub rest_skip_reason : Runtime → (String → Bool) → CollectorConfig → Option String
unfolding type_checks rest_required fields
rest_skip_reason rt is_file c =
    return_if (leb_ℤ c.rest_max_concurrency (pos 0))
      ("invalid rest.max_concurrency: " <> show_ℤ c.rest_max_concurrency)
      (return_if (is_negative c.rest_request_spacing_seconds)
        ("invalid rest.request_spacing_seconds: " <> rt.repr (real c.rest_request_spacing_seconds))
        (type_checks rt is_file c (
          return_if (has_unfilled_fields (fields (rest_required c)))
            "REST config contains TO_BE_FILLED values"
            (return_if
              (not (c.target_type == "Networker")
                && not (c.target_type == "ZFS")
                && not (is_given c.endpoint)
                && not (has_items c.endpoints))
              "REST endpoint list is empty" none))))

-- `_ssh_skip_reason`
unfoldable pub jump_checks : CollectorConfig → Option String
unfolding fields
jump_checks c =
    if is_given c.jump_host
    then return_if
        (has_unfilled_fields (
          fields (
            ("jump_host", optional c.jump_host)
            ∷ ("jump_username", optional c.jump_username)
            ∷ ("ssh_known_hosts_path", optional c.ssh_known_hosts_path)
            ∷ [])))
        "SSH jump config contains TO_BE_FILLED values"
        (return_if (not (is_given c.jump_ssh_key_path) && not (is_given c.ssh_key_path))
          "SSH jump config requires jump_ssh_key_path or ssh_key_path" none)
    else none

unfoldable pub ssh_skip_reason : CollectorConfig → Option String
unfolding jump_checks fields
ssh_skip_reason c =
    return_if (not (is_given c.password) && not (is_given c.ssh_key_path))
      "SSH config requires password or ssh_key_path"
      (return_if
        (has_unfilled_fields (
          fields (
            ("host", optional c.host)
            ∷ ("username", optional c.username)
            ∷ ("commands", obj c.commands)
            ∷ [])))
        "SSH config contains TO_BE_FILLED values"
        (return_if
          (has_unfilled_values (optional c.password)
            && has_unfilled_values (optional c.ssh_key_path))
          "SSH config contains TO_BE_FILLED values"
          (return_if (not (has_items c.commands)) "SSH command list is empty" (jump_checks c))))

-- The first schedule that fails its check
abbrev pub named_reason : String → Option String → Option String → Option String
named_reason class none rest = rest
named_reason class (some reason) rest = some (class <> (" " <> reason))

unfoldable pub schedules_reason : List (String × ScheduleConfig) → Option String → Option String
unfolding schedule_skip_reason
schedules_reason [] rest = rest
schedules_reason ((class, s) ∷ schedules) rest =
    named_reason class (schedule_skip_reason s) (schedules_reason schedules rest)

-- `CollectorConfig.skip_reason`; none outside is the `KeyError` of a default schedule of an unknown type.
unfoldable pub protocol_reason : Runtime → (String → Bool) → CollectorConfig → Option String
unfolding snmp_skip_reason rest_skip_reason ssh_skip_reason
protocol_reason rt is_file c =
    if c.protocol == "snmp"
    then snmp_skip_reason c
    else if c.protocol == "rest"
    then rest_skip_reason rt is_file c
    else if c.protocol == "ssh" || c.protocol == "cli"
    then ssh_skip_reason c
    else some ("unsupported protocol: " <> c.protocol)

abbrev pub checked :
    Option (List (String × ScheduleConfig)) → Option String → Option (Option String)
checked none reason = none
checked (some schedules) reason = some (schedules_reason schedules reason)

unfoldable pub skip_reason : Runtime → (String → Bool) → CollectorConfig → Option (Option String)
skip_reason rt is_file c =
    if c.enabled
    then checked (effective_schedules c) (protocol_reason rt is_file c)
    else some (some "collector is disabled")
