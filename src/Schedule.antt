-- ===== src/Schedule.antt =====
-- apps/core/config.py, `ScheduleConfig`, and apps/scheduler.py, `seconds_until_next_run`.
--
-- A configured number is an integer of any sign. An instant is the count of microseconds since a
-- UTC midnight (`datetime` holds microseconds), so `datetime.replace(hour=0, ...)` is a remainder.
-- Instants have no upper bound: the `OverflowError` of a date after year 9999 is not here.
pub mod Bounds
pub mod Grid
pub mod Errors
mod Tests
use integrated_backup_monito.Prelude.{
  ℕ, ◌+◌, ◌-◌, ◌*◌, ◌/◌, ◌%◌, String, ◌<>◌, Bool, ◌||◌, Option, none, some, leb, if◌then◌else◌,
}
use integrated_backup_monito.Prelude.Int.{ℤ, pos, negsuc, pos_part, ltb_ℤ, leb_ℤ}
use integrated_backup_monito.Prelude.Text.{show_ℤ}

pub record ScheduleConfig : Type 0 where
  pub interval_minutes : ℤ
  pub minute_offset : ℤ
  pub second : ℤ
  pub legacy_schedule_second : Option ℤ

-- `ScheduleConfig.skip_reason`
unfoldable pub skip_reason : ScheduleConfig → Option String
skip_reason s =
    if leb_ℤ s.interval_minutes (pos 0)
    then some ("invalid schedule.interval_minutes: " <> show_ℤ s.interval_minutes)
    else if ltb_ℤ s.minute_offset (pos 0) || leb_ℤ s.interval_minutes s.minute_offset
    then some ("invalid schedule.minute_offset: " <> show_ℤ s.minute_offset)
    else if ltb_ℤ s.second (pos 0) || ltb_ℤ (pos 59) s.second
    then some ("invalid schedule.second: " <> show_ℤ s.second)
    else none

-- In microseconds.
abbrev pub second_length : ℕ
second_length = 1000000

abbrev pub minute_length : ℕ
minute_length = 60000000

abbrev pub day_length : ℕ
day_length = 86400000000

-- The last lines of `seconds_until_next_run`, where the schedule has passed its check and its
-- numbers are not negative. The differences are those of the source: none is below 0 but the last,
-- where the source takes the maximum with 0 too.
unfoldable pub day_start : ℕ → ℕ
day_start now = now - now % day_length

unfoldable pub slot : ScheduleConfig → ℕ → ℕ
unfolding day_start
slot s now =
    let interval = pos_part s.interval_minutes in
    let elapsed_minutes = (now - day_start now) / minute_length in
    let minute_base = elapsed_minutes - elapsed_minutes % interval in
    let target_minute = minute_base + pos_part s.minute_offset in
    day_start now + target_minute * minute_length + pos_part s.second * second_length

unfoldable pub target : ScheduleConfig → ℕ → ℕ
target s now =
    if leb (slot s now) now
    then slot s now + pos_part s.interval_minutes * minute_length
    else slot s now

unfoldable pub wait : ScheduleConfig → ℕ → ℕ
wait s now = target s now - now

-- The first argument is a schedule, or the minutes of one whose other numbers follow.
pub data Interval : Type 0 where
  minutes : ℤ → Interval
  schedule : ScheduleConfig → Interval

-- A `ValueError` with its message, or the microseconds to sleep.
pub data Sleep : Type 0 where
  value_error : String → Sleep
  sleep : ℕ → Sleep

unfoldable pub checked_wait : ScheduleConfig → ℕ → Sleep
checked_wait s now = elim (skip_reason s) [
  | some reason ↦ value_error reason
  | none ↦ sleep (wait s now)
]

-- `now` is the argument, or the clock where the source is given none.
unfoldable pub seconds_until_next_run : Interval → Option ℤ → Option ℤ → ℕ → Sleep
unfolding checked_wait
seconds_until_next_run (schedule s) minute_offset second now = checked_wait s now
seconds_until_next_run (minutes m) none second now =
    value_error "minute_offset and second are required"
seconds_until_next_run (minutes m) (some offset) none now =
    value_error "minute_offset and second are required"
seconds_until_next_run (minutes m) (some offset) (some second) now =
    checked_wait
      (record {
        interval_minutes = m;
        minute_offset = offset;
        second = second;
        legacy_schedule_second = none;
      })
      now
