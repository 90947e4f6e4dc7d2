-- ===== src/Schedule/Tests.antt =====
-- Runs of the schedule, and its theorems at concrete inputs.
use integrated_backup_monito.Prelude.{ℕ, ◌+◌, ◌*◌, ◌≤◌, ◌<◌, ◌≡◌, ◌≢◌, refl, none, some, arith}
use integrated_backup_monito.Prelude.Int.{ℤ, pos}
use integrated_backup_monito.Prelude.Text.{show_ℤ}
use integrated_backup_monito.Schedule.{
  ScheduleConfig, skip_reason, minute_length, day_length, day_start, slot, target, schedule, sleep,
  seconds_until_next_run, wait,
}
use integrated_backup_monito.Schedule.Bounds.{seconds_until_next_run_bounds}
use integrated_backup_monito.Schedule.Grid.{
  slot_at, seconds_until_next_run_earliest, seconds_until_next_run_off_grid,
}

abbrev three : ℤ → ℤ → ℤ → ScheduleConfig
three m o t = record {
  interval_minutes = m;
  minute_offset = o;
  second = t;
  legacy_schedule_second = none;
}

-- Every five minutes at minute 3, and every seven minutes at minute 0.
abbrev every_five : ScheduleConfig
every_five = three (pos 5) (pos 3) (pos 0)

abbrev every_seven : ScheduleConfig
every_seven = three (pos 7) (pos 0) (pos 0)

every_five_passes : skip_reason every_five ≡ none
unfolding skip_reason
every_five_passes = refl

every_seven_passes : skip_reason every_seven ≡ none
unfolding skip_reason
every_seven_passes = refl

-- At 00:04:00 the next run is in four minutes, at 00:08:00.
four_minutes : seconds_until_next_run (schedule every_five) none none 240000000 ≡ sleep 240000000
unfolding seconds_until_next_run skip_reason wait target slot
four_minutes = refl

late : skip_reason (three (pos 5) (pos 5) (pos 0)) ≡ some "invalid schedule.minute_offset: 5"
unfolding skip_reason show_ℤ
late = refl

seconds_until_next_run_bounds_example :
    (w : ℕ) × (seconds_until_next_run (schedule every_five) none none 240000000 ≡ sleep w)
    × (0 < w)
    × (w ≤ 5 * minute_length)
seconds_until_next_run_bounds_example =
    seconds_until_next_run_bounds every_five none none 240000000 every_five_passes

seconds_until_next_run_earliest_example :
    (w k : ℕ) × (seconds_until_next_run (schedule every_five) none none 240000000 ≡ sleep w)
    × (240000000 + w ≡ slot_at every_five (day_start 240000000) k)
    × (240000000 < slot_at every_five (day_start 240000000) k)
    × (slot_at every_five (day_start 240000000) k ≤ slot_at every_five (day_start 240000000) 1)
unfolding day_start
seconds_until_next_run_earliest_example =
    seconds_until_next_run_earliest every_five none none 240000000 1 every_five_passes (omega arith)

-- 23:56:00 of the first day: the wait of seven minutes ends at 00:02:00, and the slots of the next day
-- are at its minutes 0, 7, 14 and so on.
seconds_until_next_run_off_grid_example :
    (w : ℕ) × (seconds_until_next_run (schedule every_seven) none none 86160000000 ≡ sleep w)
    × (86160000000 + w ≢ slot_at every_seven (day_start 86160000000 + day_length) 0)
seconds_until_next_run_off_grid_example =
    seconds_until_next_run_off_grid every_seven none none 86160000000 0 every_seven_passes
      (λ c h. absurd (omega arith))
