-- ===== src/Collector/Lock.antt =====
-- apps/scheduler.py, `_collect_write_record` and `_wait_for_networker_cooldown`: the runs of one
-- collector. The lock is `asyncio.Lock`: it is held by one task, its waiters come in order, and after
-- a release it is free until the first waiter runs. Times are the monotonic clock's, and the spacing
-- is `rest_request_spacing_seconds`, in one unit. A collection that fails ends as one that succeeds.
-- `run_once` calls a collector with neither the lock nor the cooldown: its collections are not here.
mod Spacing
mod Accounting
mod Tests
use integrated_backup_monito.Prelude.{
  ℕ, suc, ◌+◌, ◌-◌, String, Bool, ◌&&◌, Option, none, some, List, [], ◌∷◌, ◌++◌, ◌==◌, string_eq,
  leb, if◌then◌else◌,
}

-- A run that holds the lock: its class, and when the cooldown lets it collect.
pub record Holder : Type 0 where
  pub class : String
  pub starts_at : ℕ

pub record Ended : Type 0 where
  pub class : String
  pub started : ℕ
  pub ended : ℕ

pub record Runs : Type 0 where
  pub now : ℕ
  pub holder : Option Holder
  pub waiters : List String
  -- `_collector_finished_at.get(collector.name)`
  pub finished_at : Option ℕ
  -- SCHEDULER_OVERLAP_SKIPPED_TOTAL
  pub overlap_skipped : ℕ
  -- The collections that have ended, the last first.
  pub history : List Ended

unfoldable pub no_runs : ℕ → Runs
no_runs now = record {
  now = now;
  holder = none;
  waiters = [];
  finished_at = none;
  overlap_skipped = 0;
  history = [];
}

abbrev pub is_held : Option Holder → Bool
is_held none = Bool.false
is_held (some h) = Bool.true

-- `_wait_for_networker_cooldown`: when the wait ends.
abbrev pub after_spacing : ℕ → ℕ → Option ℕ → ℕ
after_spacing spacing now none = now
after_spacing spacing now (some finished_at) = now + (spacing - (now - finished_at))

unfoldable pub cooldown_end : String → ℕ → ℕ → Option ℕ → ℕ
cooldown_end target_type spacing now finished_at =
    if target_type == "Networker" then after_spacing spacing now finished_at else now

pub data Event : Type 0 where
  passes : ℕ → Event
  arrives : String → Event
  wakes : Event
  finishes : Event

module _ (target_type : String) (spacing : ℕ) where
  -- `async with lock` at its start, and the wait
  unfoldable pub acquire : String → List String → Runs → Runs
  unfolding cooldown_end
  acquire class waiters s = record s {
    holder = some (record {
      class = class;
      starts_at = cooldown_end target_type spacing s.now s.finished_at;
    });
    waiters = waiters;
  }

  -- `lock.acquire()` of a new task: at once only if the lock is free and nobody waits.
  unfoldable pub enter : String → Runs → Option Holder → List String → Runs
  unfolding acquire
  enter class s none [] = acquire class [] s
  enter class s _ waiters = record s { waiters = waiters ++ class ∷ [] }

  -- The call of `_collect_write_record`
  unfoldable pub arrive : String → Runs → Runs
  unfolding enter
  arrive class s =
      if (class == "jobs") && is_held s.holder
      then record s { overlap_skipped = suc s.overlap_skipped }
      else enter class s s.holder s.waiters

  unfoldable pub wake_first : Runs → Option Holder → List String → Runs
  unfolding acquire
  wake_first s none (class ∷ waiters) = acquire class waiters s
  wake_first s _ _ = s

  unfoldable pub wake : Runs → Runs
  unfolding wake_first
  wake s = wake_first s s.holder s.waiters

  -- The `finally` and the end of `async with lock`, after the wait
  abbrev pub end_of : Runs → Option Holder → Runs
  end_of s none = s
  end_of s (some h) =
      if leb h.starts_at s.now
      then record s {
        holder = none;
        finished_at = some s.now;
        history = record { class = h.class; started = h.starts_at; ended = s.now } ∷ s.history;
      }
      else s

  unfoldable pub finish : Runs → Runs
  finish s = end_of s s.holder

  -- An event that cannot be leaves the runs as they are.
  unfoldable pub step : Event → Runs → Runs
  unfolding arrive wake finish
  step (passes d) s = record s { now = s.now + d }
  step (arrives class) s = arrive class s
  step wakes s = wake s
  step finishes s = finish s

  unfoldable pub steps : List Event → Runs → Runs
  unfolding step
  steps [] s = s
  steps (e ∷ es) s = steps es (step e s)
