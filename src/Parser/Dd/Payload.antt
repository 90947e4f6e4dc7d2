-- ===== src/Parser/Dd/Payload.antt =====
-- apps/parsers/dd_snmp_parser.py: the payload. `Gib`, a parameter, is the products with 1024**3 and the
-- quotients of floats by others than 0.
use integrated_backup_monito.Prelude.{
  ℕ, String, Option, some, List, [], ◌∷◌, ◌==◌, string_eq, if◌then◌else◌,
}
use integrated_backup_monito.Prelude.Chain.{◌>>=◌}
use integrated_backup_monito.Prelude.Int.{pos}
use integrated_backup_monito.Prelude.Dict.{Dict}
use integrated_backup_monito.Value.{
  Float, Value, null, str, int, real, obj, Fields, field, end, Runtime, get, put, fields, is_none,
  truthy, or_else,
}
use integrated_backup_monito.Parser.Common.{value_or_null, rows_value}
use integrated_backup_monito.Parser.Dd.{
  first_value, first_float, table_rows, count_values, enabled, state_up,
}

pub record Gib : Type 0 where
  -- `x * GIB`
  pub bytes : Float → Float
  -- `x / y`
  pub quotient : Float → Float → Float

-- `row.pop(key, None)`: what is left.
unfoldable pub without : String → Fields → Fields
without key end = end
without key (field k v fs) = let rest = without key fs in if key == k then rest else field k v rest

abbrev pub in_bytes : Gib → Value → Value
in_bytes gib (real x) = real (gib.bytes x)
in_bytes gib _ = null

-- The ratio that a row without one gets, where its sizes are known and the second is not 0.
abbrev pub ratio_of : Gib → Value → Value → Value → Value
ratio_of gib null (real pre) (real post) =
    if truthy (real post) then real (gib.quotient pre post) else null
ratio_of gib ratio pre post = ratio

abbrev pub with_ratio : Fields → Value → Value → Fields
with_ratio row null ratio = if is_none ratio then row else put "total_ratio" ratio row
with_ratio row before ratio = row

unfoldable pub compression_row : Gib → Fields → Fields
unfolding get put without truthy is_none
compression_row gib row =
    let pre = get "pre_compression_gib" row in
    let post = get "post_compression_gib" row in
    let kept = without "post_compression_gib" (without "pre_compression_gib" row) in
    let sized =
      put "post_compression_bytes" (in_bytes gib post)
        (put "pre_compression_bytes" (in_bytes gib pre) kept) in
    let before = get "total_ratio" sized in with_ratio sized before (ratio_of gib before pre post)

unfoldable pub compression_rows : Gib → List Fields → List Fields
unfolding compression_row
compression_rows gib [] = []
compression_rows gib (row ∷ rows) = compression_row gib row ∷ compression_rows gib rows

-- `_first_compression_value`
unfoldable pub first_compression_value : List Fields → String → Value
unfolding get is_none
first_compression_value [] key = null
first_compression_value (row ∷ rows) key =
    let rest = first_compression_value rows key in
    if is_none (get key row) then rest else get key row

unfoldable pub replication_row : Runtime → Fields → Fields
unfolding get put or_else state_up
replication_row rt row =
    let name = or_else (or_else (get "destination" row) (get "source" row)) (get "instance" row) in
    let state = or_else (get "state" row) (get "status" row) in
    put "up" (if state_up rt state then int (pos 1) else int (pos 0)) (put "name" name row)

unfoldable pub replication_rows : Runtime → List Fields → List Fields
unfolding replication_row
replication_rows rt [] = []
replication_rows rt (row ∷ rows) = replication_row rt row ∷ replication_rows rt rows

-- A dict of counts as a value
abbrev pub count_items : Dict String ℕ → List (String × Value)
count_items [] = []
count_items ((key, n) ∷ counts) = (key, int (pos n)) ∷ count_items counts

-- The columns of a table, each with the payload's key: `{name: payload.get(key), ...}`.
unfoldable pub columns_of : List (String × String) → Fields → List (String × Value)
unfolding get
columns_of [] payload = []
columns_of ((name, key) ∷ names) payload = (name, get key payload) ∷ columns_of names payload

abbrev pub compression_numeric_keys : List String
compression_numeric_keys =
    "pre_compression_gib" ∷ "post_compression_gib" ∷ "global_ratio" ∷ "local_ratio" ∷ "total_ratio"
    ∷ "reduction_percent" ∷ []

abbrev pub unit_numeric_keys : List String
unit_numeric_keys =
    "bytes" ∷ "global_compression" ∷ "local_compression" ∷ "metadata_bytes"
    ∷ "pre_compression_bytes" ∷ "report_physical_size" ∷ "bytes_hc" ∷ []

abbrev pub compression_columns : List (String × String)
compression_columns =
    ("period", "file_system_compression_period")
    ∷ ("pre_compression_gib", "file_system_pre_compression_size")
    ∷ ("post_compression_gib", "file_system_post_compression_size")
    ∷ ("global_ratio", "file_system_global_compression_factor")
    ∷ ("local_ratio", "file_system_local_compression_factor")
    ∷ ("total_ratio", "file_system_total_compression_factor")
    ∷ ("reduction_percent", "file_system_reduction_percent")
    ∷ []

abbrev pub unit_columns : List (String × String)
unit_columns =
    ("name", "ddboost_storage_unit_name")
    ∷ ("bytes", "ddboost_storage_unit_bytes")
    ∷ ("global_compression", "ddboost_storage_unit_global_comp")
    ∷ ("local_compression", "ddboost_storage_unit_local_comp")
    ∷ ("metadata_bytes", "ddboost_storage_unit_metadata")
    ∷ ("status", "ddboost_storage_unit_status")
    ∷ ("pre_compression_bytes", "ddboost_storage_unit_pre_comp")
    ∷ ("user", "ddboost_storage_unit_user")
    ∷ ("report_physical_size", "ddboost_storage_unit_report_physical_size")
    ∷ ("bytes_hc", "ddboost_storage_unit_bytes_hc")
    ∷ []

abbrev pub ifgroup_columns : List (String × String)
ifgroup_columns = ("name", "ddboost_ifgroup_name") ∷ ("status", "ddboost_ifgroup_status") ∷ []

abbrev pub user_columns : List (String × String)
user_columns =
    ("name", "ddboost_user_name") ∷ ("tenant_unit", "ddboost_user_default_tenant_unit") ∷ []

abbrev pub replication_columns : List (String × String)
replication_columns =
    ("source", "replication_source")
    ∷ ("destination", "replication_destination")
    ∷ ("state", "replication_state")
    ∷ ("status", "replication_status")
    ∷ []

module _ (rt : Runtime) (search_number : String → Option String) (gib : Gib) where
  -- `_parse_compression`
  unfoldable pub parse_compression : Fields → Option (List Fields)
  unfolding columns_of table_rows compression_rows
  parse_compression payload = do
    rows ←
        table_rows rt search_number compression_numeric_keys
          (columns_of compression_columns payload)
    some (compression_rows gib rows)

  abbrev pub gib_or_null : Option Float → Value
  gib_or_null x = value_or_null (λ y. real (gib.bytes y)) x

  -- `_parse_capacity`
  unfoldable pub parse_dd_capacity : Fields → Option Fields
  unfolding get first_float fields
  parse_dd_capacity payload = do
    total ← first_float rt search_number (get "file_system_space_size" payload)
    used ← first_float rt search_number (get "file_system_space_used" payload)
    available ← first_float rt search_number (get "file_system_space_available" payload)
    used_percent ← first_float rt search_number (get "file_system_percent_used" payload)
    some (
        fields (
          ("total_bytes", gib_or_null total)
          ∷ ("used_bytes", gib_or_null used)
          ∷ ("available_bytes", gib_or_null available)
          ∷ ("used_percent", value_or_null real used_percent)
          ∷ []))

  -- `throughput_kbps` and `connections`
  unfoldable pub parse_throughput : Fields → Option Fields
  unfolding get first_float fields
  parse_throughput payload = do
    pre ← first_float rt search_number (get "ddboost_pre_comp_kbps" payload)
    post ← first_float rt search_number (get "ddboost_post_comp_kbps" payload)
    network ← first_float rt search_number (get "ddboost_network_kbps" payload)
    read ← first_float rt search_number (get "ddboost_read_kbps" payload)
    some (
        fields (
          ("pre_compression", value_or_null real pre)
          ∷ ("post_compression", value_or_null real post)
          ∷ ("network", value_or_null real network)
          ∷ ("read", value_or_null real read)
          ∷ []))

  unfoldable pub parse_connections : Fields → Option Fields
  unfolding get first_float fields
  parse_connections payload = do
    backup ← first_float rt search_number (get "ddboost_backup_connections" payload)
    restore ← first_float rt search_number (get "ddboost_restore_connections" payload)
    some (
        fields
          (("backup", value_or_null real backup) ∷ ("restore", value_or_null real restore) ∷ []))

  unfoldable pub storage_units : Fields → Option (List Fields)
  unfolding columns_of table_rows
  storage_units payload =
      table_rows rt search_number unit_numeric_keys (columns_of unit_columns payload)

  -- `_parse_ddboost`
  unfoldable pub parse_ddboost : Fields → Option Fields
  unfolding get columns_of first_value enabled parse_throughput parse_connections first_float
      table_rows storage_units fields rows_value
  parse_ddboost payload = do
    let status = first_value rt (get "ddboost_status" payload)
    is_enabled ← enabled status
    throughput ← parse_throughput payload
    connections ← parse_connections payload
    ratio ← first_float rt search_number (get "ddboost_compression_ratio" payload)
    ifgroups ← table_rows rt search_number [] (columns_of ifgroup_columns payload)
    users ← table_rows rt search_number [] (columns_of user_columns payload)
    units ← storage_units payload
    some (
        fields (
          ("enabled", is_enabled)
          ∷ ("status", status)
          ∷ ("throughput_kbps", obj throughput)
          ∷ ("connections", obj connections)
          ∷ ("compression_ratio", value_or_null real ratio)
          ∷ ("ifgroups", rows_value ifgroups)
          ∷ ("users", rows_value users)
          ∷ ("storage_units", rows_value units)
          ∷ []))

  -- `_parse_replication`
  unfoldable pub parse_replication : Fields → Option (List Fields)
  unfolding columns_of table_rows replication_rows
  parse_replication payload = do
    rows ← table_rows rt search_number [] (columns_of replication_columns payload)
    some (replication_rows rt rows)

  -- `parse_dd_snmp_payload`
  unfoldable pub parse_dd_snmp_payload : Fields → String → Option Fields
  unfolding get first_value first_float parse_compression parse_dd_capacity parse_ddboost or_else
      first_compression_value count_values parse_replication fields rows_value
  parse_dd_snmp_payload payload fallback_name = do
    capacity ← parse_dd_capacity payload
    compression ← parse_compression payload
    ddboost ← parse_ddboost payload
    reduction ← first_float rt search_number (get "file_system_reduction_percent" payload)
    alerts ← count_values (get "current_alert_severity" payload)
    replication ← parse_replication payload
    some (
        fields (
          (
            "device_name",
            or_else (first_value rt (get "system_hostname" payload)) (str fallback_name),
          )
          ∷ ("serial_number", first_value rt (get "system_serial_number" payload))
          ∷ ("model", first_value rt (get "system_model" payload))
          ∷ ("version", first_value rt (get "system_version" payload))
          ∷ ("file_system_status", first_value rt (get "file_system_status" payload))
          ∷ ("capacity", obj capacity)
          ∷ ("compression", rows_value compression)
          ∷ ("dedup_ratio", first_compression_value compression "global_ratio")
          ∷ ("compression_ratio", first_compression_value compression "local_ratio")
          ∷ ("reduction_percent", value_or_null real reduction)
          ∷ ("alert_counts", obj (fields (count_items alerts)))
          ∷ ("replication", rows_value replication)
          ∷ ("ddboost", obj ddboost)
          ∷ []))
