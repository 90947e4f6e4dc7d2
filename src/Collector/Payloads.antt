-- ===== src/Collector/Payloads.antt =====
-- apps/collectors: the payloads that the collectors of NetWorker, ZFS and i6000 make of what their clients
-- fetch. The metrics are not here.
mod Unknown
pub mod Devices
use integrated_backup_monito.Prelude.{
  ℕ, String, Bool, true, false, Option, none, some, List, [], ◌∷◌, Eq, ◌==◌, string_eq, length, ltb,
  if◌then◌else◌,
}
use integrated_backup_monito.Prelude.Chain.{◌>>=◌}
use integrated_backup_monito.Value.{
  Value, null, str, obj, Fields, end, field, Runtime, find, put, fields,
}
use integrated_backup_monito.Schedule.{ScheduleConfig}
use integrated_backup_monito.Parser.Common.{Platform, rows_value}
use integrated_backup_monito.Parser.Networker.Payload.{Payload, parse_networker_rest_payload}
use integrated_backup_monito.Parser.Zfs.{Arithmetic}
use integrated_backup_monito.Parser.Zfs.Payload.{ZfsPayload, parse_zfs_rest_payload}
use integrated_backup_monito.Parser.I6000.Payload.{parse_i6000_rest_payload}
use integrated_backup_monito.Client.Zfs.{endpoint_errors}

-- The class that is asked of the client: none where there is one schedule.
unfoldable pub active_class : List (String × ScheduleConfig) → String → Option String
active_class schedules class = if ltb 1 (length schedules) then some class else none

-- `name in errors`
unfoldable pub has_error : String → Fields → Bool
unfolding find
has_error name errors = elim (find name errors) [ none ↦ false | some v ↦ true ]

-- `_mark_failed_endpoint_counts_unknown`
abbrev pub put_if : Bool → String → Fields → Fields
unfolding put
put_if true key summary = put key null summary
put_if false key summary = summary

unfoldable pub mark_failed_endpoint_counts_unknown : Fields → Fields → Fields
unfolding has_error put_if
mark_failed_endpoint_counts_unknown summary errors =
    put_if (has_error "backups" errors) "total_backup_bytes" (
      put_if (has_error "backups" errors) "backup_count"
        (put_if (has_error "jobs" errors) "job_count" summary))

-- "partial" if there are errors
unfoldable pub collection_status : Fields → String
collection_status end = "success"
collection_status (field k v errors) = "partial"

abbrev ends_of : Fields → Fields → List (String × Value)
unfolding collection_status
ends_of raw errors =
    ("raw", obj raw)
    ∷ ("collection_status", str (collection_status errors))
    ∷ ("endpoint_errors", obj errors)
    ∷ []

-- `NetworkerRestCollector._collect_payload_for_class`
abbrev networker_fields : Fields → Payload → Fields
unfolding fields rows_value endpoint_errors mark_failed_endpoint_counts_unknown ends_of
networker_fields raw parsed =
    let errors = endpoint_errors raw in
    fields (
      ("summary", obj (mark_failed_endpoint_counts_unknown parsed.summary errors))
      ∷ ("jobs", rows_value parsed.jobs)
      ∷ ("backups", rows_value parsed.backups)
      ∷ ("clients", rows_value parsed.clients)
      ∷ ("policies", rows_value parsed.policies)
      ∷ ("workflows", rows_value parsed.workflows)
      ∷ ("monthly_report", rows_value parsed.monthly_report)
      ∷ ends_of raw errors)

unfoldable pub networker_payload : Runtime → Platform → String → Value → Fields → Option Fields
unfolding parse_networker_rest_payload networker_fields
networker_payload rt p name source_networker raw = do
  parsed ← parse_networker_rest_payload rt p raw name source_networker
  some (networker_fields raw parsed)

-- `ZfsRestCollector._collect_payload_for_class`
abbrev zfs_fields : Fields → ZfsPayload → Fields
unfolding fields rows_value endpoint_errors ends_of
zfs_fields raw parsed = fields (
    ("summary", obj parsed.summary)
    ∷ ("pools", rows_value parsed.pools)
    ∷ ("projects", rows_value parsed.projects)
    ∷ ("filesystems", rows_value parsed.filesystems)
    ∷ ("luns", rows_value parsed.luns)
    ∷ ("alerts", rows_value parsed.alerts)
    ∷ ends_of raw (endpoint_errors raw))

unfoldable pub zfs_payload : Runtime → Arithmetic → String → Fields → Option Fields
unfolding parse_zfs_rest_payload zfs_fields
zfs_payload rt a name raw = do
  parsed ← parse_zfs_rest_payload rt a raw name
  some (zfs_fields raw parsed)

-- `I6000RestCollector._collect_payload_for_class`
unfoldable pub i6000_payload : Runtime → Platform → String → Fields → Fields
unfolding parse_i6000_rest_payload fields endpoint_errors ends_of
i6000_payload rt p name raw =
    fields (
      ("summary", obj (parse_i6000_rest_payload rt p raw name)) ∷ ends_of raw (endpoint_errors raw))
