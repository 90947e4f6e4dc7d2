-- ===== src/Schedule/Bounds.antt =====
-- How long `seconds_until_next_run` waits.
use native.Mathlib.Nat.{mod-lt}
use integrated_backup_monito.Prelude.{ℕ, ◌+◌, ◌*◌, ◌≤◌, ◌<◌, ◌≡◌, Option, none, arith}
use integrated_backup_monito.Prelude.Int.{ℤ, pos_part}
use integrated_backup_monito.Schedule.{
  ScheduleConfig, skip_reason, minute_length, day_start, slot, target, wait, seconds_until_next_run,
  schedule, sleep,
}

-- The numbers of a schedule that passes its check.
pub record InRange (s : ScheduleConfig) : Type 0 where
  pub interval_pos : 0 < pos_part s.interval_minutes
  pub offset_lt : pos_part s.minute_offset < pos_part s.interval_minutes
  pub second_lt : pos_part s.second < 60

pub skip_reason-InRange : (s : ScheduleConfig) → skip_reason s ≡ none → InRange s
unfolding skip_reason
skip_reason-InRange s h = ground arith

module _ (s : ScheduleConfig) (now : ℕ) where
  pub slot-le : InRange s → slot s now ≤ now + pos_part s.interval_minutes * minute_length
  unfolding slot day_start
  slot-le v = omega (arith, mod-lt)

  pub lt-slot-add : InRange s → now < slot s now + pos_part s.interval_minutes * minute_length
  unfolding slot day_start
  lt-slot-add v = omega (arith, mod-lt)

  pub wait_bounds :
      InRange s → (0 < wait s now) × (wait s now ≤ pos_part s.interval_minutes * minute_length)
  unfolding wait target
  wait_bounds v = ground (arith, slot-le v, lt-slot-add v)

-- For a schedule that passes its check `seconds_until_next_run` returns a wait that is longer than
-- nothing and at most the interval of the schedule.
pub seconds_until_next_run_bounds :
    (s : ScheduleConfig) (a b : Option ℤ) (now : ℕ)
    → skip_reason s ≡ none
    → (w : ℕ) × (seconds_until_next_run (schedule s) a b now ≡ sleep w)
      × (0 < w)
      × (w ≤ pos_part s.interval_minutes * minute_length)
unfolding seconds_until_next_run
seconds_until_next_run_bounds s a b now h =
    let v = wait_bounds s now (skip_reason-InRange s h) in (wait s now, ground arith, v.0, v.1)
