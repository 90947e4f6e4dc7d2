-- ===== src/Parser/Zfs/Payload.antt =====
-- apps/parsers/zfs_rest_parser.py, `parse_zfs_rest_payload`.
use integrated_backup_monito.Prelude.{
  ℕ, String, Option, some, List, [], ◌∷◌, ◌++◌, string_eq, length, if◌then◌else◌,
}
use integrated_backup_monito.Prelude.Chain.{◌>>=◌}
use integrated_backup_monito.Prelude.Int.{pos}
use integrated_backup_monito.Prelude.Dict.{lookup, or_default}
use integrated_backup_monito.Value.{
  Float, finite, Value, int, real, str, Fields, Runtime, get, fields, truthy,
}
use integrated_backup_monito.Derived.{string}
use integrated_backup_monito.Parser.Common.{first_string, text_or}
use integrated_backup_monito.Parser.Networker.Counter.{counter}
use integrated_backup_monito.Parser.Networker.Summary.{text_at}
use integrated_backup_monito.Parser.Zfs.{Arithmetic, first_mapping, used_percent, text}
use integrated_backup_monito.Parser.Zfs.Rows.{
  normalize_pools, normalize_projects, normalize_filesystems, normalize_luns, normalize_logs,
}

-- `sum(pool.get(key) or 0 for pool in pools)`
abbrev add_value : Arithmetic → Value → Value → Value
unfolding truthy
add_value a (real total) (real x) = if truthy (real x) then real (a.plus total x) else real total
add_value a total (real x) = if truthy (real x) then real x else total
add_value a total _ = total

unfoldable pub sum_from : Arithmetic → String → Value → List Fields → Value
unfolding add_value get
sum_from a key total [] = total
sum_from a key total (pool ∷ pools) = sum_from a key (add_value a total (get key pool)) pools

abbrev sum_of : Arithmetic → String → List Fields → Value
unfolding sum_from
sum_of a key pools = sum_from a key (int (pos 0)) pools

abbrev float_of : Value → Option Float
float_of (real x) = some x
float_of _ = some (finite (pos 0) (pos 0))

-- What `parse_zfs_rest_payload` returns
pub record ZfsPayload : Type 0 where
  pub summary : Fields
  pub pools : List Fields
  pub projects : List Fields
  pub filesystems : List Fields
  pub luns : List Fields
  pub alerts : List Fields

unfoldable pub severities_of : List Fields → List String
unfolding get
severities_of [] = []
severities_of (r ∷ rs) = text_at "severity" r ∷ severities_of rs

unfoldable pub severity_count : String → List Fields → ℕ
unfolding counter severities_of lookup
severity_count severity alerts = or_default 0 (lookup severity (counter (severities_of alerts)))

abbrev count_value : ℕ → Value
count_value n = int (pos n)

unfoldable pub zfs_summary :
    Runtime
    → Arithmetic
    → Fields
    → String
    → List Fields
    → List Fields
    → List Fields
    → List Fields
    → List Fields
    → Fields
unfolding fields first_string get text severity_count sum_of used_percent
zfs_summary rt a version device_name pools projects filesystems luns alerts = fields (
    ("device_name", str device_name)
    ∷ ("product", str (first_string rt (get "ak_product" version ∷ get "hw_product" version ∷ [])))
    ∷ ("os_version", text rt "os_version" version)
    ∷ ("serial_number", text rt "hw_csn" version)
    ∷ ("pool_count", count_value (length pools))
    ∷ ("project_count", count_value (length projects))
    ∷ ("filesystem_count", count_value (length filesystems))
    ∷ ("lun_count", count_value (length luns))
    ∷ ("alert_count", count_value (severity_count "alert" alerts))
    ∷ ("fault_count", count_value (severity_count "fault" alerts))
    ∷ ("total_bytes", sum_of a "total_bytes" pools)
    ∷ ("used_bytes", sum_of a "used_bytes" pools)
    ∷ ("free_bytes", sum_of a "free_bytes" pools)
    ∷ (
      "used_percent",
      used_percent a (float_of (sum_of a "used_bytes" pools))
          (float_of (sum_of a "total_bytes" pools)),
    )
    ∷ [])

unfoldable pub device_of : Runtime → Fields → String → String
unfolding string get
device_of rt version fallback_name = text_or (string rt (get "os_nodename" version)) fallback_name

unfoldable pub parse_zfs_rest_payload : Runtime → Arithmetic → Fields → String → Option ZfsPayload
unfolding first_mapping get device_of normalize_pools normalize_projects normalize_filesystems
    normalize_luns normalize_logs zfs_summary
parse_zfs_rest_payload rt a payloads fallback_name = do
  let version = first_mapping (get "version" payloads) "version"
  let device_name = device_of rt version fallback_name
  let pools = normalize_pools rt a payloads device_name
  let projects = normalize_projects rt payloads device_name payloads
  filesystems ← normalize_filesystems rt payloads device_name
  luns ← normalize_luns rt payloads device_name
  let alerts =
      normalize_logs rt (get "alert_logs" payloads) "alert" device_name
      ++ normalize_logs rt (get "fault_logs" payloads) "fault" device_name
  some (record {
    summary = zfs_summary rt a version device_name pools projects filesystems luns alerts;
    pools = pools;
    projects = projects;
    filesystems = filesystems;
    luns = luns;
    alerts = alerts;
  })
