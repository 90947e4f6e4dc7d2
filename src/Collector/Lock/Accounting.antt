-- ===== src/Collector/Lock/Accounting.antt =====
-- What becomes of the runs that arrive at one collector, class by class.
use integrated_backup_monito.Prelude.{
  ℕ, suc, ◌+◌, String, ◌≡◌, refl, ap, true, ◌&&◌, Bool, false, Option, none, some, List, [], ◌∷◌,
  ◌++◌, ◌==◌, string_eq, leb, arith, Bool-cases, inl, inr, eq_iff, if◌then◌else◌,
}
use integrated_backup_monito.Collector.Lock.{
  Holder, Ended, Runs, Event, passes, arrives, wakes, finishes, no_runs, acquire, enter, arrive,
  wake_first, wake, end_of, finish, step, steps, is_held,
}

-- One, if the run is of the class.
unfoldable pub one : String → String → ℕ
one class c = if c == class then 1 else 0

-- The events that call `_collect_write_record` for the class.
unfoldable pub arrivals : String → List Event → ℕ
arrivals class [] = 0
arrivals class (arrives c ∷ es) = one class c + arrivals class es
arrivals class (passes d ∷ es) = arrivals class es
arrivals class (wakes ∷ es) = arrivals class es
arrivals class (finishes ∷ es) = arrivals class es

abbrev pub ended : String → List Ended → ℕ
ended class [] = 0
ended class (e ∷ es) = one class e.class + ended class es

abbrev pub holding : String → Option Holder → ℕ
holding class none = 0
holding class (some h) = one class h.class

abbrev pub waiting : String → List String → ℕ
waiting class [] = 0
waiting class (c ∷ cs) = one class c + waiting class cs

-- Only a run of the class "jobs" is skipped, so the counter is that class's.
unfoldable pub skipped : String → ℕ → ℕ
skipped class n = if "jobs" == class then n else 0

-- The runs of a class that ended, run, wait or were skipped.
abbrev pub accounted : String → Runs → ℕ
accounted class s =
    ended class s.history
    + (holding class s.holder + (waiting class s.waiters + skipped class s.overlap_skipped))

waiting-append :
    (class c : String) (cs : List String)
    → waiting class (cs ++ c ∷ []) ≡ waiting class cs + one class c
waiting-append class c [] = omega arith
waiting-append class c (d ∷ cs) = omega (arith, waiting-append class c cs)

skipped-suc : (class : String) (n : ℕ) → skipped class (suc n) ≡ one class "jobs" + skipped class n
unfolding one skipped
skipped-suc class n = elim (Bool-cases ("jobs" == class)) [
  | inl jobs ↦ rw jobs omega arith
  | inr other ↦ rw other refl
]

overlaps-jobs :
    (class c : String) (held : Option Holder)
    → ((c == "jobs") && is_held held) ≡ true
    → one class c ≡ one class "jobs"
overlaps-jobs class c held h =
    ap (one class) ((eq_iff c "jobs").0 (left (c == "jobs") (is_held held) h))
  where
    left : (a b : Bool) → (a && b) ≡ true → a ≡ true
    left true b e = refl
    left false b e = e

module _ (target_type : String) (spacing : ℕ) (class : String) where
  enter-accounted :
      (c : String) (s : Runs) (held : Option Holder) (waiters : List String)
      → s.holder ≡ held
      → s.waiters ≡ waiters
      → accounted class (enter target_type spacing c s held waiters)
        ≡ one class c + accounted class s
  unfolding acquire enter
  enter-accounted c s none [] h k = rw (h, k) omega arith
  enter-accounted c s none (w ∷ ws) h k = rw (h, k) omega (arith, waiting-append class c (w ∷ ws))
  enter-accounted c s (some x) waiters h k = rw (h, k) omega (arith, waiting-append class c waiters)

  arrive-accounted :
      (c : String) (s : Runs)
      → accounted class (arrive target_type spacing c s) ≡ one class c + accounted class s
  unfolding arrive
  arrive-accounted c s = elim (Bool-cases ((c == "jobs") && is_held s.holder)) [
    | inl overlaps ↦
        rw overlaps omega
          (arith, skipped-suc class s.overlap_skipped, overlaps-jobs class c s.holder overlaps)
    | inr free ↦ rw free (enter-accounted c s s.holder s.waiters refl refl)
  ]

  wake_first-accounted :
      (s : Runs) (held : Option Holder) (waiters : List String)
      → s.holder ≡ held
      → s.waiters ≡ waiters
      → accounted class (wake_first target_type spacing s held waiters) ≡ accounted class s
  unfolding acquire wake_first
  wake_first-accounted s none [] h k = refl
  wake_first-accounted s none (c ∷ ws) h k = rw (h, k) omega arith
  wake_first-accounted s (some x) waiters h k = refl

  end_of-accounted :
      (s : Runs) (held : Option Holder)
      → s.holder ≡ held
      → accounted class (end_of target_type spacing s held) ≡ accounted class s
  end_of-accounted s none h = refl
  end_of-accounted s (some k) h = elim (Bool-cases (leb k.starts_at s.now)) [
    | inr early ↦ rw early refl
    | inl over ↦ rw (over, h) omega arith
  ]

  step-accounted :
      (e : Event) (s : Runs)
      → accounted class (step target_type spacing e s) ≡ arrivals class (e ∷ []) + accounted class s
  unfolding step wake finish arrivals
  step-accounted (passes d) s = omega arith
  step-accounted (arrives c) s = omega (arith, arrive-accounted c s)
  step-accounted wakes s = omega (arith, wake_first-accounted s s.holder s.waiters refl refl)
  step-accounted finishes s = omega (arith, end_of-accounted s s.holder refl)

  arrivals-cons :
      (e : Event) (es : List Event)
      → arrivals class (e ∷ es) ≡ arrivals class (e ∷ []) + arrivals class es
  unfolding arrivals
  arrivals-cons (passes d) es = omega arith
  arrivals-cons (arrives c) es = omega arith
  arrivals-cons wakes es = omega arith
  arrivals-cons finishes es = omega arith

  steps_from-accounted :
      (es : List Event) (s : Runs)
      → accounted class (steps target_type spacing es s) ≡ arrivals class es + accounted class s
  unfolding steps arrivals
  steps_from-accounted [] s = omega arith
  steps_from-accounted (e ∷ es) s = omega (
    arith,
    steps_from-accounted es (step target_type spacing e s),
    step-accounted e s,
    arrivals-cons e es,
  )

  -- For every class, the runs of that class that arrived at a collector are as many as those of that class
  -- that have ended, hold the lock, wait for it, or, if the class is "jobs", were skipped.
  pub steps-accounted :
      (es : List Event) (now : ℕ)
      → (let s = steps target_type spacing es (no_runs now) in
          ended class s.history
          + (holding class s.holder
              + (waiting class s.waiters + (if "jobs" == class then s.overlap_skipped else 0))))
        ≡ arrivals class es
  unfolding no_runs skipped
  steps-accounted es now = omega (arith, steps_from-accounted es (no_runs now), none_skipped)
    where
      none_skipped : skipped class 0 ≡ 0
      none_skipped = elim (Bool-cases ("jobs" == class)) [
        | inl jobs ↦ rw jobs refl
        | inr other ↦ rw other refl
      ]
