-- ===== src/Collector/Loop/Tests.antt =====
-- The laws of the loops, applied to two classes of one collector.
use integrated_backup_monito.Prelude.{
  ℕ, String, ◌≡◌, refl, Bool, true, false, Option, none, some, List, [], ◌∷◌, ◌++◌, string_eq,
}
use integrated_backup_monito.Prelude.Int.{pos}
use integrated_backup_monito.Prelude.Dict.{lookup}
use integrated_backup_monito.Value.{end}
use integrated_backup_monito.Schedule.{ScheduleConfig, skip_reason}
use integrated_backup_monito.Collector.Collect.{
  Identity, Fetched, payload, failed, Gathered, result, exception, collect,
}
use integrated_backup_monito.Collector.Status.{status_result}
use integrated_backup_monito.Collector.Status.Latest.{of_class}
use integrated_backup_monito.Collector.Loop.{Turn, Loops, run_turns}
use integrated_backup_monito.Collector.Loop.Ran.{ran, IsAccount, run_turns-IsAccount}
use integrated_backup_monito.Collector.Loop.Answers.{run_turns-answers}

abbrev core : Identity
core = record { name = "nw-core"; target_type = "Networker"; protocol = "rest"; skip_reason = none }

abbrev hourly : ScheduleConfig
hourly = record {
  interval_minutes = pos 60;
  minute_offset = pos 5;
  second = pos 10;
  legacy_schedule_second = none;
}

abbrev turn_at : ℕ → String → Bool → Option Fetched → Gathered (Unit {0}) → Turn
turn_at ends_at class busy fetched written = record {
  collector = core;
  class = class;
  active_schedule = hourly;
  begins_at = 172800000000;
  cancelled_asleep = false;
  is_locked = busy;
  cancelled_waiting = false;
  collected_at = ends_at;
  fetched = fetched;
  written = written;
  finished_at = ends_at;
}

-- A write that fails, a run that is skipped, and a loop of another class that is cancelled.
abbrev trouble : List Turn
trouble =
    turn_at 10 "jobs" false (some (payload end)) (exception "ConnectionError")
    ∷ turn_at 20 "jobs" true (some (payload end)) (result tt)
    ∷ turn_at 30 "backups" false none (result tt)
    ∷ []

abbrev last_turn : Turn
last_turn = turn_at 40 "jobs" false (some (failed "503")) (result tt)

abbrev started : Loops
started = record {
  service = record {
    results = record { last = []; by_class = [] };
    finished_at = [];
    overlap_skipped = [];
    loop_errors = [];
  };
  ended = [];
}

run_turns-IsAccount_example :
    IsAccount (ran trouble started.ended) started.service (run_turns trouble started).service
run_turns-IsAccount_example = run_turns-IsAccount trouble started

run_turns-answers_example :
    (let results = (run_turns (trouble ++ last_turn ∷ []) started).service.results in
      let answer = status_result (collect 40 core "jobs" (failed "503")) in
      (lookup "nw-core" results.last ≡ some answer)
      × (of_class "nw-core" "jobs" results ≡ some answer))
unfolding run_turns skip_reason
run_turns-answers_example =
    run_turns-answers trouble last_turn (failed "503") started refl refl refl refl refl
