-- ===== src/Parser/Dxi/Tests.antt =====
-- The laws of the DXi parser, applied to two components and three tickets.
use integrated_backup_monito.Prelude.{◌+◌, ◌≡◌, List, [], ◌∷◌, string_eq, String}
use integrated_backup_monito.Parser.Dxi.{Record, alert_counts}
use integrated_backup_monito.Parser.Dxi.RoundTrip.{Printed}
use integrated_backup_monito.Parser.Dxi.Alerts.{of_priority, alert_counts-IsCount}

abbrev fan : Printed
fan = record { name = "Component 1"; items = ("Name", "Fan") ∷ ("Status", "Degraded") ∷ [] }

abbrev disk : Printed
disk = record { name = "Component 2"; items = ("Name", "Disk") ∷ ("Status", "OK") ∷ [] }

abbrev ticket : String → Record
ticket priority = ("Priority", priority) ∷ []

abbrev tickets : List Record
tickets = ticket "High" ∷ ticket "low" ∷ ticket "none" ∷ []

alert_counts-IsCount_example :
    (let n = alert_counts (fan.items ∷ []) tickets in
      (n.critical ≡ of_priority "high" tickets)
      × (n.warning ≡ of_priority "middle" tickets)
      × (n.info ≡ of_priority "low" tickets)
      × (n.critical + n.warning + n.info + n.unclassified ≡ n.total)
      × (n.total ≡ 1 + 3))
alert_counts-IsCount_example = alert_counts-IsCount (fan.items ∷ []) tickets
