-- ===== src/Collector/Lock/Tests.antt =====
-- The theorems on the runs of one collector, applied to runs that overlap.
use integrated_backup_monito.Prelude.{
  ℕ, String, ◌+◌, ◌≡◌, refl, List, [], ◌∷◌, ◌==◌, string_eq, if◌then◌else◌,
}
use integrated_backup_monito.Collector.Lock.{
  Ended, Event, passes, arrives, wakes, finishes, no_runs, steps,
}
use integrated_backup_monito.Collector.Lock.Spacing.{IsSpaced, steps-IsSpaced}
use integrated_backup_monito.Collector.Lock.Accounting.{
  arrivals, ended, holding, waiting, steps-accounted,
}

-- Two runs of which the second waits, a job run that is skipped, and the cooldown of ten.
abbrev overlapping : List Event
overlapping =
    arrives "inventory"
    ∷ arrives "backups"
    ∷ arrives "jobs"
    ∷ passes 4
    ∷ finishes
    ∷ passes 1
    ∷ wakes
    ∷ passes 20
    ∷ finishes
    ∷ []

starts_of : List Ended → List ℕ
starts_of [] = []
starts_of (e ∷ es) = e.started ∷ starts_of es

second_waits : starts_of (steps "Networker" 10 overlapping (no_runs 100)).history ≡ 114 ∷ 100 ∷ []
unfolding starts_of steps no_runs
second_waits = refl

steps-IsSpaced_example : IsSpaced 10 (steps "Networker" 10 overlapping (no_runs 100)).history
steps-IsSpaced_example = steps-IsSpaced 10 overlapping 100

abbrev watched : String
watched = "backups"

steps-accounted_example :
    (let s = steps "Networker" 10 overlapping (no_runs 100) in
      ended watched s.history
      + (holding watched s.holder
          + (waiting watched s.waiters + (if "jobs" == watched then s.overlap_skipped else 0))))
    ≡ arrivals watched overlapping
steps-accounted_example = steps-accounted "Networker" 10 watched overlapping 100
