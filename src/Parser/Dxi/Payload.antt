-- ===== src/Parser/Dxi/Payload.antt =====
-- apps/parsers/dxi_cli_parser.py: the payload. None of a result is an exception that the parser does
-- not catch.
use integrated_backup_monito.Prelude.{
  String, Bool, true, false, Option, none, some, List, [], ◌∷◌, ◌++◌, ◌==◌, string_eq,
  if◌then◌else◌,
}
use integrated_backup_monito.Prelude.Chain.{◌>>=◌}
use integrated_backup_monito.Prelude.Int.{pos}
use integrated_backup_monito.Prelude.Dict.{Dict, lookup, or_default}
use integrated_backup_monito.Prelude.Text.{is_empty}
use integrated_backup_monito.Value.{Value, int, real, bool, str, null, obj, Fields, Runtime, fields}
use integrated_backup_monito.Parser.Common.{Platform, text_or, value_or_null, rows_value}
use integrated_backup_monito.Parser.Dxi.{
  Record, parse_records, lower_of, overall_hardware_state, AlertCounts, alert_counts,
}
use integrated_backup_monito.Parser.Dxi.Sizes.{
  Regex, Scale, first_match, parse_capacity, parse_data_reduction,
}

abbrev pub str_or_null : Option String → Value
str_or_null o = value_or_null str o

-- `_int` of what a record or a match has
abbrev pub int_or_null : Platform → Option String → Value
int_or_null p none = null
int_or_null p (some s) = value_or_null int (p.parse_int s)

abbrev pub one_or_zero : Bool → Value
one_or_zero b = if b then int (pos 1) else int (pos 0)

abbrev pub has_key : String → Record → Bool
has_key key r = elim (lookup key r) [ none ↦ false | some v ↦ true ]

unfoldable pub vtl_row : Platform → Record → Fields
unfolding fields lookup lower_of
vtl_row p r =
    let mode = lower_of (lookup "mode" r) in
    fields (
      ("name", str_or_null (lookup "name" r))
      ∷ ("mode", str mode)
      ∷ ("online", one_or_zero (mode == "online"))
      ∷ ("model", str_or_null (lookup "model" r))
      ∷ ("drive_model", str_or_null (lookup "drivemodel" r))
      ∷ ("drive_count", int_or_null p (lookup "drives" r))
      ∷ ("media_count", int_or_null p (lookup "media" r))
      ∷ ("slot_count", int_or_null p (lookup "slots" r))
      ∷ ("ie_slot_count", int_or_null p (lookup "ieslots" r))
      ∷ ("serial", str_or_null (lookup "serial" r))
      ∷ ("dedup_enabled", bool (lower_of (lookup "dedup" r) == "enabled"))
      ∷ ("replication_enabled", bool (lower_of (lookup "replication" r) == "enabled"))
      ∷ [])

-- `_parse_vtls`: the loop over the records.
unfoldable pub vtl_rows : Platform → List Record → List Fields
unfolding vtl_row lookup
vtl_rows p [] = []
vtl_rows p (r ∷ rs) =
    let rest = vtl_rows p rs in if has_key "name" r then vtl_row p r ∷ rest else rest

unfoldable pub parse_vtls : Platform → String → List Fields
unfolding vtl_rows parse_records
parse_vtls p text = vtl_rows p (parse_records text)

module _ (rt : Runtime) (rx : Regex) (scale : Scale) where
  abbrev pub speed_of : Option String → Option Value
  speed_of none = some null
  speed_of (some speed) =
      if is_empty speed
      then some null
      else do x ← rt.parse_float speed; some (real (scale.million x))

  unfoldable pub interface_row : Record → String → Option Fields
  unfolding fields lookup lower_of first_match
  interface_row r name = do
    let status = text_or (lower_of (lookup "Status" r)) "unknown"
    speed ← speed_of (first_match rx (or_default "" (lookup "Value" r)) ("([\\d.]+)\\s*Mb/s" ∷ []))
    some (
        fields (
          ("name", str name)
          ∷ ("state", str status)
          ∷ ("up", one_or_zero (status == "up"))
          ∷ ("speed_bps", speed)
          ∷ []))

  -- `_parse_interfaces`: the loop over the records.
  unfoldable pub interface_rows : List Record → Option (List Fields)
  unfolding interface_row lookup
  interface_rows [] = some []
  interface_rows (r ∷ rs) =
      let name = or_default "" (lookup "Name" r) in
      let rest = interface_rows rs in
      if is_empty name then rest else do row ← interface_row r name; rows ← rest; some (row ∷ rows)

  unfoldable pub parse_interfaces : String → Option (List Fields)
  unfolding interface_rows parse_records
  parse_interfaces text = interface_rows (parse_records text)

module _ (p : Platform) (rx : Regex) where
  unfoldable pub configured_interface : String → String → Fields
  unfolding fields first_match
  configured_interface block device = fields (
      ("name", str device)
      ∷ ("type", str_or_null (first_match rx block ("^TYPE\\s*=\\s*([^\\r\\n]+)" ∷ [])))
      ∷ ("master", str_or_null (first_match rx block ("^MASTER\\s*=\\s*([^\\r\\n]+)" ∷ [])))
      ∷ ("ip_address", str_or_null (first_match rx block ("^IPADDR\\s*=\\s*([^\\r\\n]+)" ∷ [])))
      ∷ ("netmask", str_or_null (first_match rx block ("^NETMASK\\s*=\\s*([^\\r\\n]+)" ∷ [])))
      ∷ ("mtu", int_or_null p (first_match rx block ("^MTU\\s*=\\s*(\\d+)" ∷ [])))
      ∷ [])

  unfoldable pub configured_interfaces : List String → List Fields
  unfolding configured_interface first_match
  configured_interfaces [] = []
  configured_interfaces (block ∷ blocks) =
      let device = or_default "" (first_match rx block ("^DEVICE\\s*=\\s*([^\\r\\n]+)" ∷ [])) in
      let rest = configured_interfaces blocks in
      if is_empty device then rest else configured_interface block device ∷ rest

abbrev pub hostname_patterns : List String
hostname_patterns = "^Hostname\\s*=\\s*([^\\r\\n]+)" ∷ "^HOSTNAME\\s*=\\s*([^\\r\\n]+)" ∷ []

-- `_parse_network_config`
unfoldable pub parse_network_config : Platform → Regex → String → Fields
unfolding fields first_match configured_interfaces rows_value
parse_network_config p rx text = fields (
    ("hostname", str_or_null (first_match rx text hostname_patterns))
    ∷ ("gateway", str_or_null (first_match rx text ("^GATEWAY\\s*=\\s*([^\\r\\n]+)" ∷ [])))
    ∷ ("configured_interfaces", rows_value (configured_interfaces p rx (rx.blocks text)))
    ∷ [])

-- Records as values
abbrev pub texts_of : Record → List (String × Value)
texts_of [] = []
texts_of ((key, v) ∷ items) = (key, str v) ∷ texts_of items

unfoldable pub record_fields : List Record → List Fields
unfolding fields
record_fields [] = []
record_fields (r ∷ rs) = fields (texts_of r) ∷ record_fields rs

unfoldable pub records_value : List Record → Value
unfolding record_fields rows_value
records_value rs = rows_value (record_fields rs)

unfoldable pub counts_fields : AlertCounts → Fields
unfolding fields
counts_fields n = fields (
    ("critical", int (pos n.critical))
    ∷ ("warning", int (pos n.warning))
    ∷ ("info", int (pos n.info))
    ∷ ("unclassified", int (pos n.unclassified))
    ∷ ("total", int (pos n.total))
    ∷ [])

-- `parse_dxi_cli_outputs`
unfoldable pub parse_dxi_cli_outputs :
    Runtime → Platform → Regex → Scale → Dict String String → String → Option Fields
unfolding lookup parse_records overall_hardware_state first_match parse_data_reduction alert_counts
    fields parse_capacity records_value parse_vtls parse_interfaces parse_network_config
    counts_fields rows_value
parse_dxi_cli_outputs rt p rx scale outputs fallback_name = do
  let output = λ (key : String). or_default "" (lookup key outputs)
  let common_components = parse_records (output "common_components")
  let storage_arrays = parse_records (output "storage_arrays")
  let system_board = parse_records (output "system_board")
  let admin_alerts = parse_records (output "admin_alerts")
  let service_tickets = parse_records (output "service_tickets")
  let hostname = or_default "" (first_match rx (output "network_config") hostname_patterns)
  (reduction, ratio) ← parse_data_reduction rt rx scale (output "dedup")
  capacity ← parse_capacity rt rx scale (output "capacity")
  interfaces ← parse_interfaces rt rx scale (output "interfaces")
  some (
      fields (
        ("device_name", str (text_or hostname fallback_name))
        ∷ (
          "state",
          str (overall_hardware_state (common_components ++ (storage_arrays ++ system_board))),
        )
        ∷ ("capacity", obj capacity)
        ∷ ("dedup_ratio", ratio)
        ∷ ("data_reduction", obj reduction)
        ∷ (
          "hardware",
          obj (
              fields (
                ("common_components", records_value common_components)
                ∷ ("storage_arrays", records_value storage_arrays)
                ∷ ("system_board", records_value system_board)
                ∷ [])),
        )
        ∷ ("vtls", rows_value (parse_vtls p (output "vtls")))
        ∷ ("interfaces", rows_value interfaces)
        ∷ ("network", obj (parse_network_config p rx (output "network_config")))
        ∷ ("admin_alerts", records_value admin_alerts)
        ∷ ("service_tickets", records_value service_tickets)
        ∷ ("alert_counts", obj (counts_fields (alert_counts admin_alerts service_tickets)))
        ∷ []))
