-- ===== src/Collector/Lock/Spacing.antt =====
-- The cooldown between the collections of one NetWorker collector.
use integrated_backup_monito.Prelude.{
  ℕ, ◌+◌, ◌≤◌, String, ◌≡◌, refl, Option, none, some, List, [], ◌∷◌, ◌==◌, string_eq, leb, ◌&&◌,
  leb→le, arith, Bool-cases, inl, inr,
}
use integrated_backup_monito.Collector.Lock.{
  Holder, Ended, Runs, Event, passes, arrives, wakes, finishes, no_runs, cooldown_end, acquire,
  enter, arrive, wake_first, wake, end_of, finish, step, steps, is_held,
}

-- The last collection ended at least `spacing` before `t`.
abbrev IsAfter : ℕ → ℕ → List Ended → Type 0
IsAfter spacing t [] = Unit
IsAfter spacing t (e ∷ es) = e.ended + spacing ≤ t

-- Every collection began at least `spacing` after the one before it had ended.
abbrev pub IsSpaced : ℕ → List Ended → Type 0
IsSpaced spacing [] = Unit
IsSpaced spacing (e ∷ es) =
    (e.started ≤ e.ended) × IsAfter spacing e.started es × IsSpaced spacing es

abbrev IsLastEnd : ℕ → Option ℕ → List Ended → Type 0
IsLastEnd now none [] = Unit
IsLastEnd now (some t) (e ∷ es) = (e.ended ≡ t) × (t ≤ now)
IsLastEnd now _ _ = ⊥

abbrev HolderWaits : ℕ → Option Holder → List Ended → Type 0
HolderWaits spacing none es = Unit
HolderWaits spacing (some h) es = IsAfter spacing h.starts_at es

record IsCooled (spacing : ℕ) (s : Runs) : Type 0 where
  spaced : IsSpaced spacing s.history
  last_end : IsLastEnd s.now s.finished_at s.history
  waits : HolderWaits spacing s.holder s.history

module _ (spacing : ℕ) where
  cooldown-IsAfter :
      (now : ℕ) (finished_at : Option ℕ) (es : List Ended)
      → IsLastEnd now finished_at es
      → IsAfter spacing (cooldown_end "Networker" spacing now finished_at) es
  unfolding cooldown_end
  cooldown-IsAfter now none [] h = h
  cooldown-IsAfter now (some t) (e ∷ es) h = omega (arith, h.0, h.1)
  cooldown-IsAfter now none (e ∷ es) h = absurd h
  cooldown-IsAfter now (some t) [] h = absurd h

  acquire-IsCooled :
      (class : String) (waiters : List String) (s : Runs)
      → IsCooled spacing s
      → IsCooled spacing (acquire "Networker" spacing class waiters s)
  unfolding acquire
  acquire-IsCooled class waiters s h = record {
    spaced = h.spaced;
    last_end = h.last_end;
    waits = cooldown-IsAfter s.now s.finished_at s.history h.last_end;
  }

  enter-IsCooled :
      (class : String) (s : Runs) (held : Option Holder) (waiters : List String)
      → IsCooled spacing s
      → IsCooled spacing (enter "Networker" spacing class s held waiters)
  unfolding enter
  enter-IsCooled class s none [] h = acquire-IsCooled class [] s h
  enter-IsCooled class s none (w ∷ ws) h = record {
    spaced = h.spaced;
    last_end = h.last_end;
    waits = h.waits;
  }
  enter-IsCooled class s (some k) waiters h = record {
    spaced = h.spaced;
    last_end = h.last_end;
    waits = h.waits;
  }

  arrive-IsCooled :
      (class : String) (s : Runs)
      → IsCooled spacing s
      → IsCooled spacing (arrive "Networker" spacing class s)
  unfolding arrive
  arrive-IsCooled class s h = elim (Bool-cases ((class == "jobs") && is_held s.holder)) [
    | inl overlaps ↦
        rw overlaps (record { spaced = h.spaced; last_end = h.last_end; waits = h.waits })
    | inr free ↦ rw free (enter-IsCooled class s s.holder s.waiters h)
  ]

  wake_first-IsCooled :
      (s : Runs) (held : Option Holder) (waiters : List String)
      → IsCooled spacing s
      → IsCooled spacing (wake_first "Networker" spacing s held waiters)
  unfolding wake_first
  wake_first-IsCooled s none [] h = h
  wake_first-IsCooled s none (class ∷ ws) h = acquire-IsCooled class ws s h
  wake_first-IsCooled s (some k) waiters h = h

  end_of-IsCooled :
      (s : Runs) (held : Option Holder)
      → HolderWaits spacing held s.history
      → IsCooled spacing s
      → IsCooled spacing (end_of "Networker" spacing s held)
  end_of-IsCooled s none waits h = h
  end_of-IsCooled s (some k) waits h = elim (Bool-cases (leb k.starts_at s.now)) [
    | inr early ↦ rw early h
    | inl over ↦ rw over (record {
      spaced = (leb→le k.starts_at s.now over, waits, h.spaced);
      last_end = (refl, omega arith);
      waits = tt;
    })
  ]

  passes-IsLastEnd :
      (now d : ℕ) (finished_at : Option ℕ) (es : List Ended)
      → IsLastEnd now finished_at es
      → IsLastEnd (now + d) finished_at es
  passes-IsLastEnd now d none [] h = h
  passes-IsLastEnd now d (some t) (e ∷ es) h = (h.0, omega (arith, h.1))
  passes-IsLastEnd now d none (e ∷ es) h = absurd h
  passes-IsLastEnd now d (some t) [] h = absurd h

  step-IsCooled :
      (e : Event) (s : Runs) → IsCooled spacing s → IsCooled spacing (step "Networker" spacing e s)
  unfolding step wake finish
  step-IsCooled (passes d) s h = record {
    spaced = h.spaced;
    last_end = passes-IsLastEnd s.now d s.finished_at s.history h.last_end;
    waits = h.waits;
  }
  step-IsCooled (arrives class) s h = arrive-IsCooled class s h
  step-IsCooled wakes s h = wake_first-IsCooled s s.holder s.waiters h
  step-IsCooled finishes s h = end_of-IsCooled s s.holder h.waits h

  steps-IsCooled :
      (es : List Event) (s : Runs)
      → IsCooled spacing s
      → IsCooled spacing (steps "Networker" spacing es s)
  unfolding steps
  steps-IsCooled [] s h = h
  steps-IsCooled (e ∷ es) s h =
      steps-IsCooled es (step "Networker" spacing e s) (step-IsCooled e s h)

  no_runs-IsCooled : (now : ℕ) → IsCooled spacing (no_runs now)
  unfolding no_runs
  no_runs-IsCooled now = record { spaced = tt; last_end = tt; waits = tt }

  -- Whatever arrives, waits and ends at one NetWorker collector, and in whatever order: every collection
  -- that `_collect_write_record` runs begins at least the configured spacing after the one before it that
  -- it ran has ended. `run_once` calls a collector without it, and is none of these events.
  pub steps-IsSpaced :
      (es : List Event) (now : ℕ)
      → IsSpaced spacing (steps "Networker" spacing es (no_runs now)).history
  steps-IsSpaced es now = (steps-IsCooled es (no_runs now) (no_runs-IsCooled now)).spaced
