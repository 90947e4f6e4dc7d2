-- ===== src/Collector/Payloads/Devices/Taken.antt =====
-- The Data Domain collector has a payload whenever its client has one.
use integrated_backup_monito.Prelude.{String, ◌≡◌, refl, Option, some, List, string_eq}
use integrated_backup_monito.Prelude.Dict.{Dict}
use integrated_backup_monito.Prelude.Text.{replace_char}
use integrated_backup_monito.Value.{Fields, Runtime}
use integrated_backup_monito.Parser.Dd.Payload.{Gib}
use integrated_backup_monito.Parser.Dd.Total.{Succeeds, parse_dd_snmp_payload-Succeeds}
use integrated_backup_monito.Client.Snmp.{Response, answered, collect_values}
use integrated_backup_monito.Client.Snmp.Collected.{collect_values-Holds}
use integrated_backup_monito.Collector.Payloads.Devices.{dd_payload}

-- Whatever the SNMP client collects, the parser raises nothing and the collector has a payload, if
-- `float` reads each number that the parser's pattern finds in a text, its commas taken out.
pub dd_payload-Succeeds :
    (get_cmd : String → Response) (walk_cmd : String → List Response) (rt : Runtime)
    (search_number : String → Option String) (gib : Gib) (name : String)
    (oids walk_oids : Dict String String) (raw : Fields)
    → ((s d : String) → search_number s ≡ some d → Succeeds (rt.parse_float (replace_char 44 "" d)))
    → collect_values get_cmd walk_cmd oids walk_oids ≡ answered raw
    → Succeeds
        (dd_payload rt search_number gib name (collect_values get_cmd walk_cmd oids walk_oids))
unfolding dd_payload
dd_payload-Succeeds get_cmd walk_cmd rt search_number gib name oids walk_oids raw reads h =
    let held = collect_values-Holds get_cmd walk_cmd oids walk_oids raw h in
    let (summary, e) = parse_dd_snmp_payload-Succeeds rt search_number reads gib raw held name in
    rw (h, e) (_, refl)
