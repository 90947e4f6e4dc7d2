-- ===== src/Parser/Zfs/Rows.antt =====
-- apps/parsers/zfs_rest_parser.py: the rows. None of a result is an exception that the parser does not
-- catch: a key of file systems or of LUNs without "/".
use integrated_backup_monito.Prelude.{
  String, ◌<>◌, Option, none, some, List, [], ◌∷◌, ◌++◌, ◌==◌, string_eq, if◌then◌else◌,
}
use integrated_backup_monito.Prelude.Chain.{◌>>=◌}
use integrated_backup_monito.Prelude.Int.{pos}
use integrated_backup_monito.Prelude.Text.{lower, without_prefix, split_once}
use integrated_backup_monito.Value.{
  Value, int, real, str, obj, Fields, end, field, Runtime, get, fields, or_else, dict_or_empty,
}
use integrated_backup_monito.Derived.{string}
use integrated_backup_monito.Parser.Common.{items, to_number, text_or, value_or_null}
use integrated_backup_monito.Parser.Zfs.{
  Arithmetic, first_mapping, or_item, used_percent, number, text, rows_of,
}

-- `_normalize_pools`
unfoldable pub pool_row : Runtime → Arithmetic → Fields → String → Fields → Fields
unfolding fields get string first_mapping dict_or_empty to_number or_else lower used_percent text
    number
pool_row rt a payloads device_name item =
    let name = string rt (get "name" item) in
    let source = or_item (first_mapping (get ("pool:" <> name) payloads) "pool") item in
    let usage = dict_or_empty (get "usage" source) in
    let total = to_number rt (get "total" usage) in
    let used = to_number rt (or_else (get "used" usage) (get "usage_total" usage)) in
    let free = to_number rt (or_else (get "free" usage) (get "available" usage)) in
    let state = string rt (get "state" source) in
    fields (
      ("device_name", str device_name)
      ∷ ("name", str name)
      ∷ ("state", str state)
      ∷ ("up", (if lower state == "online" then int (pos 1) else int (pos 0)))
      ∷ ("profile", text rt "profile" source)
      ∷ ("owner", text rt "owner" source)
      ∷ ("peer", text rt "peer" source)
      ∷ ("asn", text rt "asn" source)
      ∷ ("scrub_schedule", text rt "scrub_schedule" source)
      ∷ ("total_bytes", value_or_null real total)
      ∷ ("used_bytes", value_or_null real used)
      ∷ ("free_bytes", value_or_null real free)
      ∷ ("used_percent", used_percent a used total)
      ∷ ("compression", number rt (get "compression" usage))
      ∷ ("dedup_ratio", number rt (get "dedupratio" usage))
      ∷ ("snapshot_bytes", number rt (get "usage_snapshots" usage))
      ∷ ("replication_bytes", number rt (get "usage_replication" usage))
      ∷ [])

unfoldable pub normalize_pools : Runtime → Arithmetic → Fields → String → List Fields
unfolding pool_row rows_of items get
normalize_pools rt a payloads device_name =
    rows_of (pool_row rt a payloads device_name) (items (get "pools" payloads) "pools")

-- `_normalize_projects`
unfoldable pub project_row : Runtime → Fields → String → String → Fields → Fields
unfolding fields get string first_mapping text number
project_row rt payloads device_name pool project =
    let name = string rt (get "name" project) in
    let source =
      or_item (first_mapping (get ("project:" <> (pool <> ("/" <> name))) payloads) "project")
        project in
    fields (
      ("device_name", str device_name)
      ∷ ("pool", str pool)
      ∷ ("name", str name)
      ∷ ("mountpoint", text rt "mountpoint" source)
      ∷ ("creation", text rt "creation" source)
      ∷ ("dedup", get "dedup" source)
      ∷ ("sharenfs", text rt "sharenfs" source)
      ∷ ("sharesmb", text rt "sharesmb" source)
      ∷ ("quota", number rt (get "quota" source))
      ∷ ("reservation", number rt (get "reservation" source))
      ∷ [])

abbrev projects_in : Runtime → Fields → String → Option String → Value → List Fields
unfolding project_row rows_of items
projects_in rt payloads device_name none payload = []
projects_in rt payloads device_name (some pool) payload =
    rows_of (project_row rt payloads device_name pool) (items payload "projects")

unfoldable pub normalize_projects : Runtime → Fields → String → Fields → List Fields
unfolding projects_in without_prefix
normalize_projects rt payloads device_name end = []
normalize_projects rt payloads device_name (field key payload rest) =
    projects_in rt payloads device_name (without_prefix "projects:" key) payload
    ++ normalize_projects rt payloads device_name rest

-- `_normalize_filesystems`
abbrev dict_at : String → Fields → Value
unfolding get dict_or_empty
dict_at key item = obj (dict_or_empty (get key item))

unfoldable pub filesystem_row : Runtime → String → String → String → Fields → Fields
unfolding fields get string text number dict_at
filesystem_row rt device_name pool project item = fields (
    ("device_name", str device_name)
    ∷ ("pool", str (text_or (string rt (get "pool" item)) pool))
    ∷ ("project", str (text_or (string rt (get "project" item)) project))
    ∷ ("name", text rt "name" item)
    ∷ ("mountpoint", text rt "mountpoint" item)
    ∷ ("quota", number rt (get "quota" item))
    ∷ ("reservation", number rt (get "reservation" item))
    ∷ ("usage", dict_at "usage" item)
    ∷ [])

-- `_normalize_luns`
unfoldable pub lun_row : Runtime → String → String → String → Fields → Fields
unfolding fields get string text number dict_at
lun_row rt device_name pool project item = fields (
    ("device_name", str device_name)
    ∷ ("pool", str (text_or (string rt (get "pool" item)) pool))
    ∷ ("project", str (text_or (string rt (get "project" item)) project))
    ∷ ("name", text rt "name" item)
    ∷ ("id", text rt "id" item)
    ∷ ("status", text rt "status" item)
    ∷ ("volsize", number rt (get "volsize" item))
    ∷ ("sparse", get "sparse" item)
    ∷ ("usage", dict_at "usage" item)
    ∷ [])

-- The rows under the keys with a prefix, each naming a pool and a project.
abbrev pub Row : Type 0
Row = String → String → Fields → Fields

unfoldable pub rows_under : Row → Value → String → Option (String × String) → Option (List Fields)
unfolding rows_of items
rows_under row payload name none = none
rows_under row payload name (some (pool, project)) =
    some (rows_of (row pool project) (items payload name))

unfoldable pub rows_at : Row → Value → String → Option String → Option (List Fields)
unfolding rows_under split_once
rows_at row payload name none = some []
rows_at row payload name (some place) = rows_under row payload name (split_once b'/' place)

unfoldable pub placed_rows : Row → String → String → Fields → Option (List Fields)
unfolding rows_at without_prefix
placed_rows row prefix name end = some []
placed_rows row prefix name (field key payload rest) = do
  here ← rows_at row payload name (without_prefix prefix key)
  others ← placed_rows row prefix name rest
  some (here ++ others)

unfoldable pub normalize_filesystems : Runtime → Fields → String → Option (List Fields)
unfolding placed_rows filesystem_row
normalize_filesystems rt payloads device_name =
    placed_rows (filesystem_row rt device_name) "filesystems:" "filesystems" payloads

unfoldable pub normalize_luns : Runtime → Fields → String → Option (List Fields)
unfolding placed_rows lun_row
normalize_luns rt payloads device_name =
    placed_rows (lun_row rt device_name) "luns:" "luns" payloads

-- `_normalize_logs`
unfoldable pub log_row : Runtime → String → String → Fields → Fields
unfolding fields text
log_row rt severity device_name item = fields (
    ("device_name", str device_name)
    ∷ ("severity", str severity)
    ∷ ("timestamp", text rt "timestamp" item)
    ∷ ("summary", text rt "summary" item)
    ∷ ("user", text rt "user" item)
    ∷ ("address", text rt "address" item)
    ∷ ("annotation", text rt "annotation" item)
    ∷ [])

unfoldable pub normalize_logs : Runtime → Value → String → String → List Fields
unfolding rows_of log_row items
normalize_logs rt payload severity device_name =
    rows_of (log_row rt severity device_name) (items payload "logs")
