-- ===== src/Parser/I6000/Parts.antt =====
-- apps/parsers/i6000_rest_parser.py: the parts of a tape library.
use integrated_backup_monito.Prelude.{
  ℕ, String, Bool, true, false, ◌&&◌, Option, none, some, List, [], ◌∷◌, ◌++◌, string_eq, nat_beq,
  if◌then◌else◌,
}
use integrated_backup_monito.Prelude.Int.{ℤ, pos}
use integrated_backup_monito.Prelude.Text.{is_empty}
use integrated_backup_monito.Prelude.Dict.{Dict, lookup, insert, or_default}
use integrated_backup_monito.Value.{
  Value, bool, int, str, Fields, end, Runtime, get, fields, elements, dict_or_empty,
}
use integrated_backup_monito.Derived.{string}
use integrated_backup_monito.Parser.Common.{
  Platform, as_list, to_int, first_string, text_or, value_or_null,
}
use integrated_backup_monito.Parser.Networker.Counter.{counter}
use integrated_backup_monito.Parser.I6000.{find_values, mappings, boolish}

-- `1 if ... in {1, None} and ... in {1, None} else 0`
abbrev is_one : ℤ → Bool
is_one (pos n) = elim n [ ℕ.zero ↦ false | ℕ.suc m ↦ elim m [ ℕ.zero ↦ true | ℕ.suc k ↦ false ] ]
is_one _ = false

abbrev one_or_none : Option ℤ → Bool
one_or_none none = true
one_or_none (some n) = is_one n

abbrev up : Option ℤ → Option ℤ → Value
up a b = if one_or_none a && one_or_none b then int (pos 1) else int (pos 0)

abbrev number : Option ℤ → Value
number n = value_or_null int n

-- `_string(...) or ... or default`
abbrev string_or : Runtime → List Value → String → String
unfolding first_string
string_or rt vs otherwise =
    let found = first_string rt vs in if is_empty found then otherwise else found

abbrev dicts_at : String → Fields → List Fields
unfolding get as_list elements mappings
dicts_at key status = mappings (elements (as_list (get key status)))

-- `_parse_robots`
abbrev pub robot : Runtime → Platform → Fields → Fields
unfolding fields get to_int string_or
robot rt p item =
    let status = to_int rt p (get "status" item) in
    let state = to_int rt p (get "state" item) in
    fields (
      ("name", str (string_or rt (get "serialNumber" item ∷ get "location" item ∷ []) "robot"))
      ∷ ("status", number status)
      ∷ ("state", number state)
      ∷ ("up", up status state)
      ∷ [])

unfoldable pub all_rows : (Fields → Fields) → List Fields → List Fields
all_rows f [] = []
all_rows f (item ∷ rest) = f item ∷ all_rows f rest

unfoldable pub parse_robots : Runtime → Platform → Fields → List Fields
unfolding robot all_rows dicts_at
parse_robots rt p status = all_rows (robot rt p) (dicts_at "robot" status)

-- `_parse_partitions`
abbrev pub partition : Runtime → Platform → Fields → Fields
unfolding fields get to_int string_or
partition rt p item = fields (
    ("name", str (string_or rt (get "name" item ∷ []) "partition"))
    ∷ ("mode", number (to_int rt p (get "mode" item)))
    ∷ ("type", number (to_int rt p (get "type" item)))
    ∷ [])

unfoldable pub parse_partitions : Runtime → Platform → Fields → List Fields
unfolding partition all_rows dicts_at
parse_partitions rt p status = all_rows (partition rt p) (dicts_at "partition" status)

-- `_drive_serial`, `_normalize_drive_detail`
unfoldable pub drive_serial : Runtime → Fields → String
unfolding get first_string
drive_serial rt item = first_string rt (
    get "logicalSerialNumber" item
    ∷ get "physicalSerialNumber" item
    ∷ get "serialNumber" item
    ∷ get "serial_number" item
    ∷ [])

unfoldable pub normalize_drive_detail : Runtime → Fields → Fields
unfolding fields get string first_string drive_serial
normalize_drive_detail rt item = fields (
    ("name", str (string rt (get "name" item)))
    ∷ ("serial_number", str (drive_serial rt item))
    ∷ ("model", str (first_string rt (get "model" item ∷ get "productId" item ∷ [])))
    ∷ [])

-- The tickets, under either name
unfoldable pub tickets : Value → List Fields
unfolding find_values mappings
tickets payload = mappings (find_values payload "ticket" ++ find_values payload "rasTicket")

abbrev is_four : Option ℤ → Bool
is_four (some (pos n)) = nat_beq n 4
is_four _ = false

abbrev pub drive_error : Runtime → Platform → Fields → Bool
unfolding get to_int dict_or_empty
drive_error rt p ticket =
    is_four (to_int rt p (get "group" (dict_or_empty (get "groupStatus" ticket))))

abbrev pub failed_serial : Runtime → Fields → String
unfolding get string_or
failed_serial rt ticket = string_or rt (get "serialNumber" ticket ∷ []) "unknown"

unfoldable pub failed_serials : Runtime → Platform → List Fields → List String
unfolding drive_error failed_serial
failed_serials rt p [] = []
failed_serials rt p (t ∷ ts) =
    let rest = failed_serials rt p ts in
    if drive_error rt p t then failed_serial rt t ∷ rest else rest

unfoldable pub drive_error_counts : Runtime → Platform → Value → Dict String ℕ
unfolding counter failed_serials tickets
drive_error_counts rt p payload = counter (failed_serials rt p (tickets payload))

-- `_parse_drives`
unfoldable pub by_serial : List Fields → Dict String Fields → Dict String Fields
unfolding insert get drive_serial
by_serial [] details = details
by_serial (d ∷ ds) details = elim (get "serial_number" d) [
  | str serial ↦ by_serial ds (if is_empty serial then details else insert serial d details)
  | _ ↦ by_serial ds details
]

unfoldable pub drive_row : Runtime → Platform → Dict String Fields → Dict String ℕ → Fields → Fields
unfolding fields get to_int string_or lookup string drive_serial first_string
drive_row rt p details errors item =
    let serial = drive_serial rt item in
    let detail = or_default end (lookup serial details) in
    let mode = to_int rt p (get "mode" item) in
    let state = to_int rt p (get "state" item) in
    fields (
      (
        "name",
        str (text_or serial (string_or rt (get "name" detail ∷ get "location" item ∷ []) "drive")),
      )
      ∷ ("serial_number", str serial)
      ∷ ("model", str (string rt (get "model" detail)))
      ∷ ("mode", number mode)
      ∷ ("state", number state)
      ∷ ("up", up mode state)
      ∷ ("error_count", int (pos (or_default 0 (lookup serial errors))))
      ∷ [])

abbrev or_details : List Fields → List Fields → List Fields
or_details [] details = details
or_details (d ∷ ds) details = d ∷ ds

unfoldable pub parse_drives : Runtime → Platform → Fields → Value → Dict String ℕ → List Fields
unfolding drive_row all_rows dicts_at by_serial normalize_drive_detail find_values mappings
parse_drives rt p status drive_payload errors =
    let details =
      all_rows (normalize_drive_detail rt) (mappings (find_values drive_payload "drive")) in
    all_rows (drive_row rt p (by_serial details []) errors)
      (or_details (dicts_at "drive" status) details)

-- `_parse_towers`
abbrev pub tower : Runtime → Platform → Fields → Fields
unfolding fields get to_int string_or string boolish
tower rt p item = fields (
    (
      "name",
      str (
          string_or rt (get "id" item ∷ get "frameNumber" item ∷ get "serialNumber" item ∷ [])
            "tower"),
    )
    ∷ ("serial_number", str (string rt (get "serialNumber" item)))
    ∷ ("mode", number (to_int rt p (get "mode" item)))
    ∷ ("state", number (to_int rt p (get "state" item)))
    ∷ ("status", number (to_int rt p (get "status" item)))
    ∷ ("door_opened", value_or_null bool (boolish rt (get "doorOpened" item)))
    ∷ [])

abbrev towers_or : List Value → Fields → List Fields
unfolding get as_list elements mappings
towers_or [] status = dicts_at "tower" status
towers_or (v ∷ vs) status = mappings (v ∷ vs)

unfoldable pub parse_towers : Runtime → Platform → Fields → Value → List Fields
unfolding tower all_rows towers_or find_values
parse_towers rt p status tower_payload =
    all_rows (tower rt p) (towers_or (find_values tower_payload "tower") status)

-- `_parse_ie_stations`
abbrev pub ie_station : Runtime → Platform → Fields → Fields
unfolding fields get to_int string_or
ie_station rt p item = fields (
    (
      "name",
      str (string_or rt (get "number" item ∷ get "id" item ∷ get "name" item ∷ []) "ieStation"),
    )
    ∷ ("status", number (to_int rt p (get "status" item)))
    ∷ ("state", number (to_int rt p (get "state" item)))
    ∷ ("mode", number (to_int rt p (get "mode" item)))
    ∷ ("lock", number (to_int rt p (get "lock" item)))
    ∷ [])

unfoldable pub parse_ie_stations : Runtime → Platform → Value → List Fields
unfolding ie_station all_rows find_values mappings
parse_ie_stations rt p payload =
    all_rows (ie_station rt p) (mappings (find_values payload "ieStation"))
