-- ===== src/Parser/I6000/Ras.antt =====
-- apps/parsers/i6000_rest_parser.py: the groups, the tickets and the slots.
use integrated_backup_monito.Prelude.{
  ℕ, String, Bool, true, false, ◌&&◌, Option, none, some, List, [], ◌∷◌, ◌++◌, string_eq, nat_beq,
  length, if◌then◌else◌,
}
use integrated_backup_monito.Prelude.Int.{ℤ, pos, ◌+ℤ◌}
use integrated_backup_monito.Prelude.Dict.{Dict}
use integrated_backup_monito.Value.{
  Value, int, Fields, Runtime, find, get, fields, elements, dict_or_empty,
}
use integrated_backup_monito.Parser.Common.{Platform, as_list, to_int, value_or_null}
use integrated_backup_monito.Parser.Networker.Counter.{counter}
use integrated_backup_monito.Parser.I6000.{find_values, mappings, first_not_none}
use integrated_backup_monito.Parser.I6000.Parts.{tickets}

-- `_parse_ras_status`
abbrev has_key : String → Fields → Bool
has_key key item = elim (find key item) [ none ↦ false | some v ↦ true ]

unfoldable pub group_rows : Runtime → Platform → List Fields → List Fields
unfolding find fields get to_int
group_rows rt p [] = []
group_rows rt p (item ∷ items) =
    let rest = group_rows rt p items in
    if has_key "group" item && has_key "status" item
    then fields (
        ("group", value_or_null int (to_int rt p (get "group" item)))
        ∷ ("status", value_or_null int (to_int rt p (get "status" item)))
        ∷ [])
      ∷ rest
    else rest

abbrev ras_of : Fields → Fields
unfolding dict_or_empty get
ras_of status = dict_or_empty (get "ras" status)

unfoldable pub parse_ras_status : Runtime → Platform → Fields → Value → List Fields
unfolding group_rows mappings elements as_list get ras_of find_values
parse_ras_status rt p status ras_payload = group_rows rt p (
    mappings (
      elements (as_list (get "status" (ras_of status)))
      ++ find_values ras_payload "RASGroupStatus"
      ++ find_values ras_payload "status"))

-- `_ras_opened_tickets`
unfoldable pub ras_opened_tickets : Runtime → Platform → Fields → Option ℤ
unfolding to_int get ras_of
ras_opened_tickets rt p status =
    first_not_none (to_int rt p (get "openedTickets" (ras_of status)))
      (to_int rt p (get "openedTickets" status))

-- `_ticket_count`
unfoldable pub ticket_count : Value → ℕ
unfolding find_values
ticket_count payload = length (find_values payload "ticket" ++ find_values payload "rasTicket")

-- `_ras_ticket_counts`
unfoldable pub severity_name : Option ℤ → String
severity_name (some (pos n)) =
    if nat_beq n 1
    then "critical"
    else if nat_beq n 2
    then "degraded"
    else if nat_beq n 3
    then "warning"
    else if nat_beq n 4
    then "attention"
    else if nat_beq n 5
    then "informational"
    else "unknown"
severity_name _ = "unknown"

unfoldable pub severities : Runtime → Platform → List Fields → List String
unfolding severity_name get to_int
severities rt p [] = []
severities rt p (t ∷ ts) = severity_name (to_int rt p (get "severity" t)) ∷ severities rt p ts

unfoldable pub ras_ticket_counts : Runtime → Platform → Value → Dict String ℕ
unfolding counter severities tickets
ras_ticket_counts rt p payload = counter (severities rt p (tickets payload))

-- `_segment_slot_count`
abbrev or_one : Option ℤ → ℤ
or_one none = pos 1
or_one (some size) = size

unfoldable pub add_slots : Runtime → Platform → ℤ → List Fields → ℤ
unfolding ◌+ℤ◌ to_int get
add_slots rt p total [] = total
add_slots rt p total (segment ∷ segments) =
    add_slots rt p (total +ℤ or_one (to_int rt p (get "size" segment))) segments

unfoldable pub segment_slot_count : Runtime → Platform → Value → ℤ
unfolding add_slots find_values mappings
segment_slot_count rt p payload = add_slots rt p (pos 0) (mappings (find_values payload "segment"))
