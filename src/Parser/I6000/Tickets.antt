-- ===== src/Parser/I6000/Tickets.antt =====
-- The counts of tickets, against the tickets themselves.
use integrated_backup_monito.Prelude.{
  ℕ, ◌≤◌, String, ◌≡◌, refl, ap, ◌∙◌, ◌&&◌, List, [], ◌∷◌, ◌++◌, ◌==◌, string_eq, arith, length,
  All,
}
use integrated_backup_monito.Prelude.Dict.{Dict, lookup, or_default}
use integrated_backup_monito.Prelude.Int.{pos}
use integrated_backup_monito.Value.{
  Value, null, bool, int, real, str, datetime, arr, obj, Fields, Runtime, find, get, fields,
}
use integrated_backup_monito.Parser.Common.{Platform}
use integrated_backup_monito.Parser.Networker.Counter.{counter, occurrences}
use integrated_backup_monito.Parser.Networker.Counter.Laws.{lookup-count_into, total, counter-total}
use integrated_backup_monito.Parser.Networker.Summary.Counts.{count_where}
use integrated_backup_monito.Parser.I6000.{find_values, mappings}
use integrated_backup_monito.Parser.I6000.Parts.{
  all_rows, tickets, drive_error, failed_serial, failed_serials, drive_error_counts, drive_row,
  drive_serial, parse_drives,
}
use integrated_backup_monito.Parser.I6000.Ras.{severities, ras_ticket_counts, ticket_count}

length-mappings : (vs : List Value) → length (mappings vs) ≤ length vs
unfolding mappings
length-mappings [] = omega arith
length-mappings (obj fs ∷ vs) = omega (arith, length-mappings vs)
length-mappings (null ∷ vs) = omega (arith, length-mappings vs)
length-mappings (bool b ∷ vs) = omega (arith, length-mappings vs)
length-mappings (int n ∷ vs) = omega (arith, length-mappings vs)
length-mappings (real x ∷ vs) = omega (arith, length-mappings vs)
length-mappings (str s ∷ vs) = omega (arith, length-mappings vs)
length-mappings (datetime d ∷ vs) = omega (arith, length-mappings vs)
length-mappings (arr items ∷ vs) = omega (arith, length-mappings vs)

length-severities :
    (rt : Runtime) (p : Platform) (ts : List Fields) → length (severities rt p ts) ≡ length ts
unfolding severities
length-severities rt p [] = refl
length-severities rt p (t ∷ ts) = omega (arith, length-severities rt p ts)

-- The counts by severity add up to the number of the tickets that are dicts, and that is at most the number
-- of tickets.
pub ras_ticket_counts-total :
    (rt : Runtime) (p : Platform) (payload : Value)
    → (total (ras_ticket_counts rt p payload) ≡ length (tickets payload))
      × (total (ras_ticket_counts rt p payload) ≤ ticket_count payload)
unfolding ras_ticket_counts tickets ticket_count
ras_ticket_counts-total rt p payload =
    let counted = counter-total (severities rt p (tickets payload)) in
    let all = length-severities rt p (tickets payload) in
    let few = length-mappings (find_values payload "ticket" ++ find_values payload "rasTicket") in
    (counted ∙ all, omega (arith, counted, all, few))

-- The errors of a drive
abbrev pub errors_of : Runtime → Platform → String → List Fields → ℕ
errors_of rt p serial ts =
    count_where (λ t. drive_error rt p t && (serial == failed_serial rt t)) ts

occurrences-failed_serials :
    (rt : Runtime) (p : Platform) (serial : String) (ts : List Fields)
    → occurrences serial (failed_serials rt p ts) ≡ errors_of rt p serial ts
unfolding failed_serials
occurrences-failed_serials rt p serial [] = refl
occurrences-failed_serials rt p serial (t ∷ ts) =
    ground (arith, occurrences-failed_serials rt p serial ts)

lookup-drive_error_counts :
    (rt : Runtime) (p : Platform) (serial : String) (payload : Value)
    → or_default 0 (lookup serial (drive_error_counts rt p payload))
      ≡ errors_of rt p serial (tickets payload)
unfolding drive_error_counts counter lookup
lookup-drive_error_counts rt p serial payload = omega (
  arith,
  lookup-count_into serial (failed_serials rt p (tickets payload)) [],
  occurrences-failed_serials rt p serial (tickets payload),
)

-- A drive's row that has a serial number and the errors that the tickets have of it.
abbrev pub IsCounted : Runtime → Platform → Value → Fields → Type 0
IsCounted rt p payload row =
    (serial : String) × (get "serial_number" row ≡ str serial)
    × (get "error_count" row ≡ int (pos (errors_of rt p serial (tickets payload))))

drive_rows-IsCounted :
    (rt : Runtime) (p : Platform) (payload : Value) (details : Dict String Fields)
    (items : List Fields)
    → All
        (IsCounted rt p payload)
        (all_rows (drive_row rt p details (drive_error_counts rt p payload)) items)
unfolding all_rows drive_row get find fields
drive_rows-IsCounted rt p payload details [] = tt
drive_rows-IsCounted rt p payload details (item ∷ items) = (
  (
    drive_serial rt item,
    refl,
    ap (λ n. int (pos n)) (lookup-drive_error_counts rt p (drive_serial rt item) payload),
  ),
  drive_rows-IsCounted rt p payload details items,
)

-- Each row of the drives has a serial number, and as its errors the number of the tickets of group 4 whose
-- serial number, "unknown" for an empty one, it is.
pub parse_drives-IsCounted :
    (rt : Runtime) (p : Platform) (status : Fields) (drives ras_tickets : Value)
    → All
        (IsCounted rt p ras_tickets)
        (parse_drives rt p status drives (drive_error_counts rt p ras_tickets))
unfolding parse_drives
parse_drives-IsCounted rt p status drives ras_tickets = drive_rows-IsCounted rt p ras_tickets _ _
