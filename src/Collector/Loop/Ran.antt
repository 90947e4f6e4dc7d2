-- ===== src/Collector/Loop/Ran.antt =====
-- What the turns of the loops leave behind, as an account of each turn alone.
use integrated_backup_monito.Prelude.{
  ℕ, String, ◌≡◌, refl, sym, ◌∙◌, Bool, true, false, Option, none, some, List, [], ◌∷◌, ◌++◌, map,
  string_eq, keep, Bool-cases, inl, inr, if◌then◌else◌,
}
use mathlib.Core.List.{append-nil, append_assoc}
use integrated_backup_monito.Prelude.Dict.{Dict, insert}
use integrated_backup_monito.Writer.{CollectionResult}
use integrated_backup_monito.Collector.Collect.{Fetched}
use integrated_backup_monito.Collector.Status.{Results, record_results}
use integrated_backup_monito.Collector.Loop.{
  Turn, Service, Loops, Label, label_of, run_turns, after_turn, has_ended,
}
use integrated_backup_monito.Collector.Loop.Effects.{
  is_skipped, collects, is_recorded, raises, is_interrupted, add_result, recorded, stamped, effect,
  run_turn-effect,
}

-- The turns that take place: those of loops that were not cancelled before.
unfoldable pub ran : List Turn → List Label → List Turn
unfolding has_ended
ran [] ended = []
ran (t ∷ ts) ended =
    let later = ran ts ended in
    let interrupted = t ∷ ran ts (label_of t ∷ ended) in
    let others = t ∷ ran ts ended in
    if has_ended (label_of t) ended then later else if is_interrupted t then interrupted else others

abbrev effects : List Turn → Service → Service
effects [] s = s
effects (t ∷ ts) s = effects ts (effect t s)

run_turns-effects :
    (ts : List Turn) (l : Loops) → (run_turns ts l).service ≡ effects (ran ts l.ended) l.service
unfolding run_turns ran
run_turns-effects [] l = refl
run_turns-effects (t ∷ ts) l = elim (Bool-cases (has_ended (label_of t) l.ended)) [
  | inl over ↦ rw over (run_turns-effects ts l)
  | inr on ↦ elim (Bool-cases (is_interrupted t)) [
    | inl stops ↦
        rw (on, run_turn-effect t l.service, stops)
          (run_turns-effects ts (after_turn t l (false, effect t l.service)))
    | inr goes_on ↦
        rw (on, run_turn-effect t l.service, goes_on)
          (run_turns-effects ts (after_turn t l (true, effect t l.service)))
  ]
]

record_results-add :
    (b : Bool) (t : Turn) (f : Option Fetched) (rest : List CollectionResult) (results : Results)
    → record_results (add_result b t f rest) results
      ≡ record_results rest (record_results (add_result b t f []) results)
unfolding record_results
record_results-add true t (some x) rest results = refl
record_results-add true t none rest results = refl
record_results-add false t f rest results = refl

-- A turn that passes a test is the first of those that are kept.
stamped-kept :
    (b : Bool) (t : Turn) (kept : List Turn) (times : Dict String ℕ)
    → stamped (elim b [ true ↦ t ∷ kept | false ↦ kept ]) times
      ≡ stamped kept (if b then insert t.collector.name t.finished_at times else times)
unfolding insert
stamped-kept true t kept times = refl
stamped-kept false t kept times = refl

labels-kept :
    (b : Bool) (t : Turn) (kept : List Turn) (before : List Label)
    → (if b then before ++ label_of t ∷ [] else before) ++ map label_of kept
      ≡ before ++ map label_of (elim b [ true ↦ t ∷ kept | false ↦ kept ])
labels-kept true t kept before = append_assoc before (label_of t ∷ []) (map label_of kept)
labels-kept false t kept before = refl

-- The account of the turns that took place.
abbrev pub IsAccount : List Turn → Service → Service → Type 0
unfolding insert record_results
IsAccount ts s after =
    (after.results ≡ record_results (recorded ts) s.results)
    × (after.finished_at ≡ stamped (keep collects ts) s.finished_at)
    × (after.overlap_skipped ≡ s.overlap_skipped ++ map label_of (keep is_skipped ts))
    × (after.loop_errors ≡ s.loop_errors ++ map label_of (keep raises ts))

effects-IsAccount : (ts : List Turn) (s : Service) → IsAccount ts s (effects ts s)
unfolding insert record_results effect
effects-IsAccount [] s =
    (refl, refl, sym (append-nil s.overlap_skipped), sym (append-nil s.loop_errors))
effects-IsAccount (t ∷ ts) s =
    let rest = effects-IsAccount ts (effect t s) in
    (
      rest.0 ∙ sym (record_results-add (is_recorded t) t t.fetched (recorded ts) s.results),
      rest.1 ∙ sym (stamped-kept (collects t) t (keep collects ts) s.finished_at),
      rest.2 ∙ labels-kept (is_skipped t) t (keep is_skipped ts) s.overlap_skipped,
      rest.3 ∙ labels-kept (raises t) t (keep raises ts) s.loop_errors,
    )

-- After any turns of any loops, in any order of their ends, and of those that took place, which are
-- the turns of a loop up to the one that is cancelled: the last results are those of recording, in
-- order, what the turns have collected and written; a collector's last end is that of the last turn
-- that began a collection, however it ended; and each skipped run, and each turn that a refused schedule
-- or the writer ended with an exception, is counted once under its collector and class.
pub run_turns-IsAccount :
    (ts : List Turn) (l : Loops) → IsAccount (ran ts l.ended) l.service (run_turns ts l).service
unfolding insert record_results
run_turns-IsAccount ts l =
    rw (run_turns-effects ts l) (effects-IsAccount (ran ts l.ended) l.service)
