-- ===== src/Collector/Loop/Effects.antt =====
-- What one turn leaves behind, as tests on what it awaits.
use integrated_backup_monito.Prelude.{
  ℕ, String, ◌≡◌, refl, ap, ◌∙◌, Bool, true, false, ◌&&◌, ◌||◌, not, Option, none, some, List, [],
  ◌∷◌, ◌++◌, ◌==◌, string_eq, if◌then◌else◌,
}
use integrated_backup_monito.Prelude.Dict.{Dict, insert}
use integrated_backup_monito.Schedule.{
  ScheduleConfig, skip_reason, seconds_until_next_run, checked_wait, value_error, sleep, wait,
}
use integrated_backup_monito.Writer.{CollectionResult}
use integrated_backup_monito.Collector.Collect.{
  Fetched, Gathered, result, cancelled, exception, collect,
}
use integrated_backup_monito.Collector.Status.{record_results}
use integrated_backup_monito.Collector.Loop.{
  Turn, Service, label_of, unless_cancelled, slept, sleep_until, collected_result, record_action,
  finally_finished, and_after, handled, collect_and_write, collect_write_record, run_turn,
}

abbrev pub passed : Option String → Bool
passed none = true
passed (some reason) = false

abbrev pub passes_check : ScheduleConfig → Bool
passes_check s = passed (skip_reason s)

-- The run is not begun, since the collector is busy.
abbrev pub overlaps : Turn → Bool
overlaps t = (t.class == "jobs") && t.is_locked

abbrev pub is_skipped : Turn → Bool
is_skipped t = passes_check t.active_schedule && (not t.cancelled_asleep && overlaps t)

-- The run gets the lock, and its cooldown ends.
abbrev pub collects : Turn → Bool
collects t =
    passes_check t.active_schedule
    && (not t.cancelled_asleep && (not (overlaps t) && not t.cancelled_waiting))

abbrev pub is_result : Gathered (Unit {0}) → Bool
is_result (result _) = true
is_result cancelled = false
is_result (exception text) = false

abbrev pub is_cancelled : Gathered (Unit {0}) → Bool
is_cancelled (result _) = false
is_cancelled cancelled = true
is_cancelled (exception text) = false

abbrev pub is_exception : Gathered (Unit {0}) → Bool
is_exception (result _) = false
is_exception cancelled = false
is_exception (exception text) = true

abbrev pub is_fetched : Option Fetched → Bool
is_fetched none = false
is_fetched (some f) = true

abbrev pub is_recorded : Turn → Bool
is_recorded t = collects t && (is_fetched t.fetched && is_result t.written)

-- The turn ends with an exception: of its schedule, or of the writer.
abbrev pub raises : Turn → Bool
raises t =
    not (passes_check t.active_schedule)
    || collects t && (is_fetched t.fetched && is_exception t.written)

-- The turn ends with a `CancelledError`: asleep, waiting, collecting or writing.
abbrev pub is_interrupted : Turn → Bool
is_interrupted t =
    passes_check t.active_schedule
    && (t.cancelled_asleep
        || not (overlaps t)
          && (t.cancelled_waiting || (not (is_fetched t.fetched) || is_cancelled t.written)))

-- The result that a turn has, if it has fetched anything.
abbrev pub add_result : Bool → Turn → Option Fetched → List CollectionResult → List CollectionResult
add_result true t (some f) rest = collect t.collected_at t.collector t.class f ∷ rest
add_result true t none rest = rest
add_result false t fetched rest = rest

abbrev pub recorded : List Turn → List CollectionResult
recorded [] = []
recorded (t ∷ ts) = add_result (is_recorded t) t t.fetched (recorded ts)

-- The collectors' times of their last ends.
abbrev pub stamped : List Turn → Dict String ℕ → Dict String ℕ
stamped [] times = times
stamped (t ∷ ts) times = stamped ts (insert t.collector.name t.finished_at times)

-- What one turn leaves.
unfoldable pub effect_of :
    Turn → Service → Option Fetched → (is_new began skips fails : Bool) → Service
unfolding insert record_results
effect_of t s f is_new began skips fails = record {
  results = record_results (add_result is_new t f []) s.results;
  finished_at =
      if began then insert t.collector.name t.finished_at s.finished_at else s.finished_at;
  overlap_skipped = if skips then s.overlap_skipped ++ label_of t ∷ [] else s.overlap_skipped;
  loop_errors = if fails then s.loop_errors ++ label_of t ∷ [] else s.loop_errors;
}

unfoldable pub effect : Turn → Service → Service
unfolding effect_of
effect t s = effect_of t s t.fetched (is_recorded t) (collects t) (is_skipped t) (raises t)

abbrev slept_or : Bool → Option String → Gathered (Unit {0})
slept_or interrupted none = unless_cancelled interrupted
slept_or interrupted (some reason) = exception reason

same_check :
    (s : ScheduleConfig)
    → skip_reason (record {
      interval_minutes = s.interval_minutes;
      minute_offset = s.minute_offset;
      second = s.second;
      legacy_schedule_second = none;
    })
      ≡ skip_reason s
unfolding skip_reason
same_check s = refl

slept_of :
    (i : Bool) (o : Option String) (w : ℕ)
    → slept i (elim o [ some reason ↦ value_error reason | none ↦ sleep w ]) ≡ slept_or i o
slept_of i none w = refl
slept_of i (some reason) w = refl

sleep_until-slept :
    (t : Turn) (s : Service)
    → sleep_until t s ≡ (slept_or t.cancelled_asleep (skip_reason t.active_schedule), s)
unfolding sleep_until seconds_until_next_run checked_wait
sleep_until-slept t s =
    let plan : ScheduleConfig = record {
      interval_minutes = t.active_schedule.interval_minutes;
      minute_offset = t.active_schedule.minute_offset;
      second = t.active_schedule.second;
      legacy_schedule_second = none;
    } in
    ap (λ g. (g, s))
      (slept_of t.cancelled_asleep (skip_reason plan) (wait plan t.begins_at)
        ∙ ap (slept_or t.cancelled_asleep) (same_check t.active_schedule))

-- A turn whose events are these.
abbrev turn_of :
    Turn
    → Service
    → Option String
    → (i b w : Bool) → Option Fetched
    → Gathered (Unit {0})
    → Bool × Service
turn_of t s o i b w f g = handled t (
    and_after (slept_or i o, s)
      (λ _ awake.
        if b
        then (
          result tt,
          record awake { overlap_skipped = awake.overlap_skipped ++ label_of t ∷ [] },
        )
        else and_after (unless_cancelled w, awake)
            (λ _ entered. finally_finished t (
              and_after (collected_result t f, entered)
                (λ r at. and_after (g, at) (λ _ after. record_action r after))))))

turn_of-effect :
    (t : Turn) (s : Service) (o : Option String) (i b w : Bool) (f : Option Fetched)
    (g : Gathered (Unit {0}))
    → turn_of t s o i b w f g ≡ (
      not (passed o && (i || not b && (w || (not (is_fetched f) || is_cancelled g)))),
      effect_of t s f
          ((passed o && (not i && (not b && not w))) && (is_fetched f && is_result g))
          (passed o && (not i && (not b && not w)))
          (passed o && (not i && b))
          (not (passed o)
            || (passed o && (not i && (not b && not w))) && (is_fetched f && is_exception g)),
    )
unfolding insert record_results finally_finished effect_of
turn_of-effect t s (some reason) i b w f g = refl
turn_of-effect t s none true b w f g = refl
turn_of-effect t s none false true w f g = refl
turn_of-effect t s none false false true f g = refl
turn_of-effect t s none false false false none g = refl
turn_of-effect t s none false false false (some x) (result tt) = refl
turn_of-effect t s none false false false (some x) cancelled = refl
turn_of-effect t s none false false false (some x) (exception text) = refl

pub run_turn-effect : (t : Turn) (s : Service) → run_turn t s ≡ (not (is_interrupted t), effect t s)
unfolding run_turn collect_write_record collect_and_write insert record_results finally_finished
    effect
run_turn-effect t s =
    ap (λ m. handled t (and_after m (λ _. collect_write_record t))) (sleep_until-slept t s)
    ∙ turn_of-effect t s (skip_reason t.active_schedule) t.cancelled_asleep (overlaps t)
        t.cancelled_waiting t.fetched t.written
