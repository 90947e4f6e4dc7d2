-- ===== src/Parser/I6000/Payload.antt =====
-- apps/parsers/i6000_rest_parser.py, `parse_i6000_rest_payload`.
use integrated_backup_monito.Prelude.{
  ℕ, String, Bool, true, false, ◌&&◌, ◌||◌, Option, none, some, List, [], ◌∷◌, any, length, nat_beq,
  if◌then◌else◌,
}
use integrated_backup_monito.Prelude.Int.{ℤ, pos}
use integrated_backup_monito.Value.{Value, null, bool, int, str, obj, Fields, Runtime, get, fields}
use integrated_backup_monito.Parser.Common.{
  Platform, to_int, first_string, text_or, value_or_null, rows_value,
}
use integrated_backup_monito.Parser.Networker.Summary.{counts_value}
use integrated_backup_monito.Parser.I6000.{find_values, first_mapping, boolish, first_not_none}
use integrated_backup_monito.Parser.I6000.Parts.{
  parse_robots, parse_partitions, parse_drives, parse_towers, parse_ie_stations, drive_error_counts,
}
use integrated_backup_monito.Parser.I6000.Ras.{
  parse_ras_status, ras_opened_tickets, ticket_count, ras_ticket_counts, segment_slot_count,
}

abbrev mapping_at : Fields → String → String → Fields
unfolding get find_values first_mapping
mapping_at payloads name key = first_mapping (find_values (get name payloads) key)

abbrev is_one : Option ℤ → Bool
is_one (some (pos n)) = nat_beq n 1
is_one _ = false

abbrev is_known : Option ℤ → Bool
is_known none = false
is_known (some n) = true

unfoldable pub library_status : Option ℤ → Option ℤ → Value
library_status state mode =
    if is_one state && is_one mode
    then int (pos 1)
    else if is_known state || is_known mode
    then int (pos 0)
    else null

-- `item.get("door_opened") is True`
abbrev is_true : Value → Bool
is_true (bool b) = b
is_true _ = false

unfoldable pub door_opened : Fields → Bool
unfolding get
door_opened tower = is_true (get "door_opened" tower)

abbrev counted : ℕ → Value
counted n = int (pos n)

abbrev pub library_fields :
    Runtime → Platform → Fields → String → Fields → Fields → Fields → List (String × Value)
unfolding get to_int first_string library_status boolish rows_value parse_robots parse_partitions
    parse_drives parse_towers parse_ie_stations drive_error_counts parse_ras_status
    ras_opened_tickets ticket_count ras_ticket_counts segment_slot_count find_values counts_value
    door_opened
library_fields rt p payloads fallback_name ping library status =
    let state =
      first_not_none (to_int rt p (get "state" status)) (to_int rt p (get "state" library)) in
    let mode =
      first_not_none (to_int rt p (get "mode" status)) (to_int rt p (get "mode" library)) in
    let towers = parse_towers rt p status (get "towers" payloads) in
    let ras_tickets = get "ras_tickets" payloads in
    (
      "device_name",
      str (
          text_or
            (first_string rt
              (get "name" library ∷ get "serialNumber" ping ∷ get "productName" ping ∷ []))
            fallback_name),
    )
    ∷ (
      "product_name",
      str (first_string rt (get "productName" ping ∷ get "productId" library ∷ [])),
    )
    ∷ (
      "serial_number",
      str (first_string rt (get "serialNumber" ping ∷ get "serialNumber" library ∷ [])),
    )
    ∷ (
      "firmware_version",
      str (first_string rt (get "firmwareVersion" ping ∷ get "firmwareVersion" library ∷ [])),
    )
    ∷ ("vendor", str (first_string rt (get "vendor" ping ∷ get "vendorId" library ∷ [])))
    ∷ ("library_state", value_or_null int state)
    ∷ ("library_mode", value_or_null int mode)
    ∷ ("library_status", library_status state mode)
    ∷ ("snmp_started", value_or_null bool (boolish rt (get "snmpStarted" status)))
    ∷ ("ras_status", rows_value (parse_ras_status rt p status (get "ras_status" payloads)))
    ∷ (
      "ras_opened_tickets",
      value_or_null int
          (first_not_none (ras_opened_tickets rt p status) (some (pos (ticket_count ras_tickets)))),
    )
    ∷ ("robots", rows_value (parse_robots rt p status))
    ∷ ("partitions", rows_value (parse_partitions rt p status))
    ∷ (
      "drives",
      rows_value
          (parse_drives rt p status (get "drives" payloads) (drive_error_counts rt p ras_tickets)),
    )
    ∷ ("towers", rows_value towers)
    ∷ ("library_main_door_open", bool (any door_opened towers))
    ∷ ("ie_stations", rows_value (parse_ie_stations rt p (get "ie_stations" payloads)))
    ∷ ("slot_used_count", int (segment_slot_count rt p (get "segments_storage_used" payloads)))
    ∷ ("slot_free_count", int (segment_slot_count rt p (get "segments_storage_available" payloads)))
    ∷ ("media_count", counted (length (find_values (get "media" payloads) "media")))
    ∷ ("ras_ticket_counts", obj (counts_value (ras_ticket_counts rt p ras_tickets)))
    ∷ []

unfoldable pub parse_i6000_rest_payload : Runtime → Platform → Fields → String → Fields
unfolding fields library_fields mapping_at
parse_i6000_rest_payload rt p payloads fallback_name = fields (
    library_fields rt p payloads fallback_name (mapping_at payloads "ping" "ping")
      (mapping_at payloads "physical_library" "physicalLibrary")
      (mapping_at payloads "status" "libraryStatus"))
