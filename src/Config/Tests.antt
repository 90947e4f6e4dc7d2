-- ===== src/Config/Tests.antt =====
-- The theorems on configurations, applied to a NetWorker collector with two classes.
use integrated_backup_monito.Prelude.{
  ℕ, String, ◌≡◌, refl, Bool, true, false, Option, none, some, [], ◌∷◌,
}
use integrated_backup_monito.Prelude.Int.{ℤ, pos}
use integrated_backup_monito.Prelude.Text.{lower, lower_char}
use integrated_backup_monito.Value.{finite, Value, int, obj, Fields, end, fields, find}
use integrated_backup_monito.Value.Example.{plain}
use integrated_backup_monito.Schedule.{ScheduleConfig, skip_reason as schedule_skip_reason}
use integrated_backup_monito.Lookup.Models.{validate_source_networker, source_text}
use integrated_backup_monito.Config.Placeholder.{has_unfilled_values}
use integrated_backup_monito.Config.Collector.{
  CollectorConfig, by_class, effective_schedules, schedule_items,
}
use integrated_backup_monito.Config.Skip.{
  rest_required, networker_checks, type_checks, rest_skip_reason, schedules_reason, protocol_reason,
  skip_reason,
}
use integrated_backup_monito.Config.Parse.{Loader, schedule_from_mapping}
use integrated_backup_monito.Config.Needs.{IsReady}
use integrated_backup_monito.Config.Ready.{skip_reason-IsReady}

abbrev every : ℕ → ℕ → ScheduleConfig
every n o = record {
  interval_minutes = pos n;
  minute_offset = pos o;
  second = pos 0;
  legacy_schedule_second = none;
}

abbrev core : CollectorConfig
core = record {
  name = "nw-core";
  target_type = "Networker";
  protocol = "rest";
  enabled = true;
  schedule = by_class (record {
    fast = none;
    slow = none;
    jobs = some (every 5 3);
    backups = some (every 15 3);
    inventory = none;
  });
  schedule_second = none;
  host = none;
  port = pos 161;
  snmp_port = none;
  ssh_port = none;
  community = none;
  version = "2c";
  timeout_seconds = pos 5;
  retries = pos 1;
  oids = end;
  walk_oids = end;
  base_url = some "https://nw-core:9090";
  endpoint = none;
  endpoints = end;
  method = "GET";
  token = none;
  username = some "reader";
  password = some "secret";
  verify_tls = true;
  ca_certs = none;
  rest_max_concurrency = pos 4;
  rest_request_spacing_seconds = finite (pos 0) (pos 0);
  networker_query_window_minutes = pos 20;
  networker_jobs_query_window_minutes = pos 10;
  networker_backups_query_window_minutes = pos 20;
  networker_field_filter = true;
  commands = end;
  ssh_key_path = none;
  ssh_known_hosts_path = none;
  jump_host = none;
  jump_port = pos 22;
  jump_username = none;
  jump_ssh_key_path = none;
  command_timeout = pos 30;
  source_networker = some "core";
}

no_file : String → Bool
no_file path = false

core_runs : skip_reason plain no_file core ≡ some none
unfolding skip_reason effective_schedules schedule_items schedules_reason schedule_skip_reason
    protocol_reason rest_skip_reason type_checks networker_checks validate_source_networker
    source_text lower lower_char rest_required fields has_unfilled_values
core_runs = refl

skip_reason-IsReady_example : IsReady core
skip_reason-IsReady_example = skip_reason-IsReady plain no_file core refl refl core_runs

integer : Value → Option ℤ
integer (int n) = some n
integer _ = none

abbrev integers : Loader
integers = record {
  to_int = integer;
  to_float = λ v. some (finite (pos 0) (pos 0));
  read_text = λ path. none;
}

integer_lem : (k : ℤ) → integers.to_int (int k) ≡ some k
unfolding integer
integer_lem k = refl

abbrev two_minutes : Fields
unfolding fields
two_minutes = fields (("interval_minutes", int (pos 2)) ∷ [])

no_offset : find "minute_offset" two_minutes ≡ none
unfolding find fields two_minutes
no_offset = refl

no_second : find "second" two_minutes ≡ none
unfolding find fields two_minutes
no_second = refl

two_minutes_parsed :
    schedule_from_mapping integers (obj two_minutes) "Networker" (pos 5) (pos 0) ≡ some (every 2 0)
unfolding schedule_from_mapping find fields integer two_minutes
two_minutes_parsed = refl
