-- ===== src/Schedule/Errors.antt =====
-- The refusals of `seconds_until_next_run`.
use integrated_backup_monito.Prelude.{ℕ, ◌≤◌, ◌<◌, ◌≡◌, ◌↔◌, String, Option, none, some, arith}
use integrated_backup_monito.Prelude.Int.{ℤ, pos, pos_part}
use integrated_backup_monito.Schedule.{
  ScheduleConfig, skip_reason, schedule, value_error, seconds_until_next_run,
}

-- The schedules that the check lets through: an interval of a minute or more, an offset in it, and a
-- second of a minute.
abbrev pub Accepted : ScheduleConfig → Type 0
Accepted s =
    (i o t : ℕ) × (s.interval_minutes ≡ pos i)
    × (s.minute_offset ≡ pos o)
    × (s.second ≡ pos t)
    × (o < i)
    × (t ≤ 59)

Accepted-of_none : (s : ScheduleConfig) → skip_reason s ≡ none → Accepted s
unfolding skip_reason
Accepted-of_none s h = (
  pos_part s.interval_minutes,
  pos_part s.minute_offset,
  pos_part s.second,
  ground arith,
  ground arith,
  ground arith,
  ground arith,
  ground arith,
)

-- `ScheduleConfig.skip_reason` is empty exactly for a positive interval, an offset from 0 to below the
-- interval, and a second from 0 to 59.
pub skip_reason-none_iff : (s : ScheduleConfig) → (skip_reason s ≡ none) ↔ Accepted s
unfolding skip_reason
skip_reason-none_iff s = (Accepted-of_none s, λ (i, o, t, a, b, c, d, e). ground arith)

-- `seconds_until_next_run` raises exactly where the schedule fails its check, with the message of
-- the check.
pub seconds_until_next_run_refuses :
    (s : ScheduleConfig) (a b : Option ℤ) (now : ℕ) (reason : String)
    → (seconds_until_next_run (schedule s) a b now ≡ value_error reason)
      ↔ (skip_reason s ≡ some reason)
unfolding seconds_until_next_run
seconds_until_next_run_refuses s a b now reason = (λ h. ground arith, λ h. ground arith)
