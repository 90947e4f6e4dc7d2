-- ===== src/Parser/Dxi.antt =====
-- apps/parsers/dxi_cli_parser.py: the tables of the command line, the status of the hardware and the
-- counts of the alerts.
pub mod Sizes
pub mod Payload
pub mod RoundTrip
pub mod State
pub mod Alerts
mod Tests
use integrated_backup_monito.Prelude.{
  ℕ, suc, ◌+◌, String, Bool, true, false, ◌&&◌, ◌||◌, not, Option, none, some, List, [], ◌∷◌, ◌++◌,
  ◌==◌, string_eq, ltb, length, contains, if◌then◌else◌,
}
use integrated_backup_monito.Prelude.Dict.{Dict, lookup, insert}
use integrated_backup_monito.Prelude.Text.{
  is_empty, is_space, strip, lower, drop_while, begins_with, split_once, all_chars,
}
use integrated_backup_monito.Prelude.Text.Lines.{splitlines}

abbrev pub Record : Type 0
Record = Dict String String

-- The line matches `^\s*\[[^]]+\]\s*$`: 91 and 93 are the codes of the brackets.
abbrev pub closes : Option (String × String) → Bool
closes none = false
closes (some (body, after)) = not (is_empty body) && all_chars is_space after

abbrev pub after_first : String → String
after_first s = elim s [ String.[] ↦ "" | String.◌∷◌ c rest ↦ rest ]

unfoldable pub is_header : String → Bool
unfolding drop_while begins_with split_once is_space
is_header line =
    let text = drop_while is_space line in
    begins_with 91 text && closes (split_once 93 (after_first text))

-- The groups of `^\s*([^=]+?)\s*=\s*(.*?)\s*$`, stripped: what is before the first "=", if there is
-- anything, and what is after it. A line has no line feed, so that "." matches each of its characters.
abbrev pub some_pair : Option (String × String) → Option (String × String)
some_pair none = none
some_pair (some (before, after)) =
    if is_empty before then none else some (strip before, strip after)

unfoldable pub key_value : String → Option (String × String)
unfolding split_once strip
key_value line = some_pair (split_once 61 line)

-- `current[key] = value`, where there is a current record.
abbrev pub with_pair : Option (String × String) → Option Record → Option Record
with_pair none current = current
with_pair (some (key, v)) none = none
with_pair (some (key, v)) (some current) = some (insert key v current)

-- `if current: records.append(current)`
abbrev pub finished : Option Record → List Record → List Record
finished none later = later
finished (some []) later = later
finished (some (item ∷ items)) later = (item ∷ items) ∷ later

-- The loop over the lines, and what is appended after it.
unfoldable pub records_from : List String → Option Record → List Record
unfolding is_header key_value insert
records_from [] current = finished current []
records_from (line ∷ lines) current =
    let opened = finished current (records_from lines (some [])) in
    let more = records_from lines (with_pair (key_value line) current) in
    if is_header line then opened else more

-- `_parse_records`
unfoldable pub parse_records : String → List Record
unfolding records_from splitlines
parse_records text = records_from (splitlines text) none

-- `_lower` of what a record has under a key
unfoldable pub lower_of : Option String → String
unfolding lower strip
lower_of none = ""
lower_of (some s) = lower (strip s)

-- `_normalize_status`
unfoldable pub normalize_status : String → String
unfolding lower strip
normalize_status value =
    let normalized = lower (strip value) in
    if contains normalized ("normal" ∷ "ok" ∷ "up" ∷ "online" ∷ "healthy" ∷ [])
    then "normal"
    else if contains normalized ("warning" ∷ "degraded" ∷ [])
    then "warning"
    else if contains normalized ("critical" ∷ "failed" ∷ "failure" ∷ "error" ∷ [])
    then "critical"
    else "unknown"

-- `_STATUS_RANK` of the four states
unfoldable pub status_rank : String → ℕ
status_rank state =
    if state == "normal"
    then 0
    else if state == "unknown"
    then 1
    else if state == "warning"
    then 2
    else 3

-- The statuses of all records, in their order.
unfoldable pub statuses : List Record → List String
unfolding lookup
statuses [] = []
statuses (r ∷ rs) = elim (lookup "Status" r) [ none ↦ statuses rs | some s ↦ s ∷ statuses rs ]

-- `_overall_hardware_state`: the loop, begun with a state.
unfoldable pub worst : String → List String → String
unfolding normalize_status status_rank
worst overall [] = overall
worst overall (s ∷ ss) =
    let normalized = normalize_status s in
    let worse = worst normalized ss in
    let same = worst overall ss in
    if ltb (status_rank overall) (status_rank normalized) then worse else same

abbrev pub state_of : List String → String
state_of [] = "unknown"
state_of (s ∷ ss) = worst "normal" (s ∷ ss)

unfoldable pub overall_hardware_state : List Record → String
unfolding statuses worst
overall_hardware_state records = state_of (statuses records)

-- `_alert_counts`
pub record AlertCounts : Type 0 where
  pub critical : ℕ
  pub warning : ℕ
  pub info : ℕ
  pub unclassified : ℕ
  pub total : ℕ

unfoldable pub count_ticket : Record → AlertCounts → AlertCounts
unfolding lower_of lookup
count_ticket ticket n =
    let priority = lower_of (lookup "Priority" ticket) in
    if priority == "high"
    then record n { critical = suc n.critical }
    else if priority == "middle"
    then record n { warning = suc n.warning }
    else if priority == "low"
    then record n { info = suc n.info }
    else record n { unclassified = suc n.unclassified }

unfoldable pub count_tickets : List Record → AlertCounts → AlertCounts
unfolding count_ticket
count_tickets [] n = n
count_tickets (ticket ∷ tickets) n = count_tickets tickets (count_ticket ticket n)

unfoldable pub alert_counts : List Record → List Record → AlertCounts
unfolding count_tickets
alert_counts admin_alerts tickets =
    let counted = count_tickets tickets (record {
      critical = 0;
      warning = 0;
      info = 0;
      unclassified = length admin_alerts;
      total = 0;
    }) in
    record counted { total = length admin_alerts + length tickets }
