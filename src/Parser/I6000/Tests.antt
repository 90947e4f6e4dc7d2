-- ===== src/Parser/I6000/Tests.antt =====
-- The theorems on the parser of a tape library, applied to a small answer.
use integrated_backup_monito.Prelude.{
  String, ◌≡◌, refl, none, some, [], ◌∷◌, ◌==◌, string_eq, All, if◌then◌else◌,
}
use integrated_backup_monito.Prelude.Int.{pos}
use integrated_backup_monito.Value.{finite, Value, str, arr, obj, end, fields, to_items}
use integrated_backup_monito.Value.Example.{plain}
use integrated_backup_monito.Parser.Common.{Platform}
use integrated_backup_monito.Parser.I6000.{find_values}
use integrated_backup_monito.Parser.I6000.Parts.{drive_error_counts, parse_drives}
use integrated_backup_monito.Parser.I6000.Ras.{ticket_count}
use integrated_backup_monito.Parser.I6000.Tickets.{IsCounted, parse_drives-IsCounted}

abbrev digits : Platform
digits = record {
  parse_int = λ s. if s == "4" then some (pos 4) else none;
  scaled = λ x n. none;
  terabytes = λ n. finite (pos 0) (pos 0);
  shell_tokens = λ s. none;
  now = 0;
}

abbrev ticket_of : String → Value
ticket_of serial = obj (
    fields (
      ("serialNumber", str serial)
      ∷ ("severity", str "4")
      ∷ ("groupStatus", obj (fields (("group", str "4") ∷ [])))
      ∷ []))

abbrev some_tickets : Value
some_tickets = obj (
    fields (
      (
        "ticketList",
        obj (
            fields (
              ("Ticket", arr (to_items (ticket_of "D1" ∷ ticket_of "D1" ∷ str "none" ∷ []))) ∷ [])),
      )
      ∷ []))

abbrev drives : Value
drives =
    obj (
      fields (("drive", arr (to_items (obj (fields (("serialNumber", str "D1") ∷ [])) ∷ []))) ∷ []))

three_found : ticket_count some_tickets ≡ 3
unfolding ticket_count find_values fields to_items
three_found = refl

parse_drives-IsCounted_example :
    All
      (IsCounted plain digits some_tickets)
      (parse_drives plain digits end drives (drive_error_counts plain digits some_tickets))
parse_drives-IsCounted_example = parse_drives-IsCounted plain digits end drives some_tickets
