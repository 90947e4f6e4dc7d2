-- ===== src/Collector/Loop.antt =====
-- apps/scheduler.py: the loops of all collectors and classes, `run_once` and `stop`. Every change of
-- the scheduler's state is made at the end of a turn, with no `await` in between, so that the turns of
-- several loops follow each other in the order in which they end. What a turn waits for is a
-- parameter: `Turn`. The lock and its waiters are those of Lock.
pub mod Effects
pub mod Ran
pub mod Answers
mod Tests
use integrated_backup_monito.Prelude.{
  ℕ, String, Bool, true, false, ◌&&◌, Option, none, some, List, [], ◌∷◌, ◌++◌, ◌==◌, string_eq, any,
  if◌then◌else◌,
}
use integrated_backup_monito.Prelude.Dict.{Dict, insert}
use integrated_backup_monito.Schedule.{
  ScheduleConfig, Sleep, value_error, sleep, minutes, seconds_until_next_run,
}
use integrated_backup_monito.Writer.{CollectionResult}
use integrated_backup_monito.Collector.Collect.{
  Identity, Fetched, Gathered, result, cancelled, exception, collect,
}
use integrated_backup_monito.Collector.Status.{Results, record_result, record_results}

-- One turn of `_run_collector_forever`, and how what it awaits ends: cancelled, or as told.
pub record Turn : Type 0 where
  pub collector : Identity
  pub class : String
  pub active_schedule : ScheduleConfig
  pub begins_at : ℕ
  pub cancelled_asleep : Bool
  -- `lock.locked()`
  pub is_locked : Bool
  -- In `async with lock`, or in the cooldown.
  pub cancelled_waiting : Bool
  pub collected_at : ℕ
  -- none is the `CancelledError`, which `collect` lets pass.
  pub fetched : Option Fetched
  -- `writer.write_many`
  pub written : Gathered (Unit {0})
  -- `time.monotonic()` in the `finally`
  pub finished_at : ℕ

-- The labels of a metric, and the name of a loop.
abbrev pub Label : Type 0
Label = String × String

abbrev pub label_of : Turn → Label
label_of t = (t.collector.name, t.class)

pub record Service : Type 0 where
  pub results : Results
  -- `_collector_finished_at`
  pub finished_at : Dict String ℕ
  -- The increments of SCHEDULER_OVERLAP_SKIPPED_TOTAL and SCHEDULER_LOOP_ERROR_TOTAL.
  pub overlap_skipped : List Label
  pub loop_errors : List Label

abbrev pub Action {ℓ} : Type ℓ → Type ℓ
Action A = Service → Gathered A × Service

abbrev pub and_after {ℓ κ} :
    {A : Type ℓ} {B : Type κ} → Gathered A × Service → (A → Action B) → Gathered B × Service
and_after (result a, s) f = f a s
and_after (cancelled, s) f = (cancelled, s)
and_after (exception text, s) f = (exception text, s)

infixl 5 ◌>>=◌ ◌>>◌
abbrev pub ◌>>=◌ {ℓ κ} : {A : Type ℓ} {B : Type κ} → Action A → (A → Action B) → Action B
(m >>= f) s = and_after (m s) f

abbrev pub ◌>>◌ {ℓ κ} : {A : Type ℓ} {B : Type κ} → Action A → Action B → Action B
m >> k = m >>= λ _. k

-- An await that changes nothing here.
abbrev pub await {ℓ} : {A : Type ℓ} → Gathered A → Action A
await g s = (g, s)

abbrev pub unless_cancelled : Bool → Gathered (Unit {0})
unless_cancelled true = cancelled
unless_cancelled false = result tt

abbrev pub slept : Bool → Sleep → Gathered (Unit {0})
slept interrupted (value_error text) = exception text
slept interrupted (sleep w) = unless_cancelled interrupted

-- The sleep of the loop, whose length may be refused.
unfoldable pub sleep_until : Turn → Action (Unit {0})
unfolding seconds_until_next_run
sleep_until t =
    let plan = t.active_schedule in
    await (
      slept t.cancelled_asleep (
        seconds_until_next_run (minutes plan.interval_minutes) (some plan.minute_offset)
          (some plan.second) t.begins_at))

abbrev pub collected_result : Turn → Option Fetched → Gathered CollectionResult
collected_result t none = cancelled
collected_result t (some f) = result (collect t.collected_at t.collector t.class f)

abbrev pub record_action : CollectionResult → Action (Unit {0})
record_action r s = (result tt, record s { results = record_result r s.results })

-- The body of the `try`.
unfoldable pub collect_and_write : Turn → Action (Unit {0})
collect_and_write t = do r ← await (collected_result t t.fetched); await t.written; record_action r

-- The `finally`
unfoldable pub finally_finished :
    Turn → Gathered (Unit {0}) × Service → Gathered (Unit {0}) × Service
unfolding insert
finally_finished t (end, s) =
    (end, record s { finished_at = insert t.collector.name t.finished_at s.finished_at })

-- `_collect_write_record`
unfoldable pub collect_write_record : Turn → Action (Unit {0})
unfolding collect_and_write finally_finished
collect_write_record t s =
    if (t.class == "jobs") && t.is_locked
    then (result tt, record s { overlap_skipped = s.overlap_skipped ++ label_of t ∷ [] })
    else and_after (unless_cancelled t.cancelled_waiting, s)
        (λ _ entered. finally_finished t (collect_and_write t entered))

-- The handlers of the loop; the Boolean tells whether it goes on.
abbrev pub handled : Turn → Gathered (Unit {0}) × Service → Bool × Service
handled t (result _, s) = (true, s)
handled t (cancelled, s) = (false, s)
handled t (exception text, s) = (true, record s { loop_errors = s.loop_errors ++ label_of t ∷ [] })

-- One turn of `_run_collector_forever`
unfoldable pub run_turn : Turn → Service → Bool × Service
unfolding sleep_until collect_write_record
run_turn t s = handled t ((sleep_until t >> collect_write_record t) s)

-- The service, and the loops that were cancelled.
pub record Loops : Type 0 where
  pub service : Service
  pub ended : List Label

abbrev pub is_label : Label → Label → Bool
is_label (n, c) (name, class) = (n == name) && (c == class)

unfoldable pub has_ended : Label → List Label → Bool
has_ended label ended = any (is_label label) ended

abbrev pub after_turn : Turn → Loops → Bool × Service → Loops
after_turn t l (true, s) = record l { service = s }
after_turn t l (false, s) = record { service = s; ended = label_of t ∷ l.ended }

-- Turns of any loops, in the order of their ends. A cancelled loop has none.
unfoldable pub run_turns : List Turn → Loops → Loops
unfolding run_turn has_ended
run_turns [] l = l
run_turns (t ∷ ts) l =
    let on = run_turns ts (after_turn t l (run_turn t l.service)) in
    let without = run_turns ts l in if has_ended (label_of t) l.ended then without else on

-- The collections of one collector in `run_once`, and of all of them, where `gather` lets a
-- cancellation pass: none. `collect` raises nothing else.
unfoldable pub collect_one :
    Identity → List (String × ℕ × Option Fetched) → Option (List CollectionResult)
collect_one collector [] = some []
collect_one collector ((class, now, none) ∷ rest) = none
collect_one collector ((class, now, some f) ∷ rest) = elim (collect_one collector rest) [
  | none ↦ none
  | some rs ↦ some (collect now collector class f ∷ rs)
]

unfoldable pub collect_each :
    List (Identity × List (String × ℕ × Option Fetched)) → Option (List CollectionResult)
unfolding collect_one
collect_each [] = some []
collect_each ((collector, turns) ∷ rest) = elim (collect_one collector turns) [
  | none ↦ none
  | some rs ↦ elim (collect_each rest) [ none ↦ none | some all_rest ↦ some (rs ++ all_rest) ]
]

abbrev pub or_cancelled {ℓ} : {A : Type ℓ} → Option A → Gathered A
or_cancelled none = cancelled
or_cancelled (some a) = result a

abbrev pub record_all : List CollectionResult → Action (List CollectionResult)
record_all rs s = (result rs, record s { results = record_results rs s.results })

-- `run_once`; the second argument is what `write_many` ends with.
unfoldable pub run_once :
    List (Identity × List (String × ℕ × Option Fetched))
    → Gathered (Unit {0})
    → Action (List CollectionResult)
unfolding collect_each
run_once collectors written = do
  results ← await (or_cancelled (collect_each collectors))
  await written
  record_all results
