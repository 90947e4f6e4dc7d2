-- ===== src/Parser/Dxi/State.antt =====
-- The hardware's state among those of its parts, and the counts of the alerts.
use integrated_backup_monito.Prelude.{
  String, ◌≡◌, Bool, true, List, [], ◌∷◌, ◌==◌, string_eq, leb, any, all,
}
use integrated_backup_monito.Parser.Dxi.{normalize_status, status_rank}

abbrev pub is_below : String → String → Bool
is_below state s = leb (status_rank (normalize_status s)) (status_rank state)

abbrev pub is_status : String → String → Bool
is_status state s = normalize_status s == state

-- The state of no status is unknown; that of some is the state of one of them, and none is worse.
abbrev pub IsWorst : List String → String → Type 0
IsWorst [] state = state ≡ "unknown"
IsWorst (s ∷ ss) state =
    (any (is_status state) (s ∷ ss) ≡ true) × (all (is_below state) (s ∷ ss) ≡ true)
