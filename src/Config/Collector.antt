-- ===== src/Config/Collector.antt =====
-- apps/core/config.py: `CollectionSchedulesConfig`, `CollectorConfig` and its schedules.
use integrated_backup_monito.Prelude.{
  String, Bool, Option, none, some, List, [], ◌∷◌, ◌==◌, string_eq, if◌then◌else◌,
}
use integrated_backup_monito.Prelude.Int.{ℤ, pos}
use integrated_backup_monito.Value.{Float, Fields}
use integrated_backup_monito.Schedule.{ScheduleConfig}

pub record CollectionSchedules : Type 0 where
  pub fast : Option ScheduleConfig
  pub slow : Option ScheduleConfig
  pub jobs : Option ScheduleConfig
  pub backups : Option ScheduleConfig
  pub inventory : Option ScheduleConfig

-- `CollectionSchedulesConfig.items`
abbrev add_class :
    String → Option ScheduleConfig → List (String × ScheduleConfig) → List (String × ScheduleConfig)
add_class class none rest = rest
add_class class (some s) rest = (class, s) ∷ rest

unfoldable pub schedule_items : CollectionSchedules → List (String × ScheduleConfig)
schedule_items c = add_class "fast" c.fast (
    add_class "jobs" c.jobs (
      add_class "backups" c.backups
        (add_class "inventory" c.inventory (add_class "slow" c.slow []))))

-- The field `schedule`: None, a schedule, or one for each class.
pub data Schedules : Type 0 where
  unset : Schedules
  single : ScheduleConfig → Schedules
  by_class : CollectionSchedules → Schedules

-- `CollectorConfig`; `type` is `target_type`.
pub record CollectorConfig : Type 0 where
  pub name : String
  pub target_type : String
  pub protocol : String
  pub enabled : Bool
  pub schedule : Schedules
  pub schedule_second : Option ℤ
  pub host : Option String
  pub port : ℤ
  pub snmp_port : Option ℤ
  pub ssh_port : Option ℤ
  pub community : Option String
  pub version : String
  pub timeout_seconds : ℤ
  pub retries : ℤ
  pub oids : Fields
  pub walk_oids : Fields
  pub base_url : Option String
  pub endpoint : Option String
  pub endpoints : Fields
  pub method : String
  pub token : Option String
  pub username : Option String
  pub password : Option String
  pub verify_tls : Bool
  pub ca_certs : Option String
  pub rest_max_concurrency : ℤ
  pub rest_request_spacing_seconds : Float
  pub networker_query_window_minutes : ℤ
  pub networker_jobs_query_window_minutes : ℤ
  pub networker_backups_query_window_minutes : ℤ
  pub networker_field_filter : Bool
  pub commands : Fields
  pub ssh_key_path : Option String
  pub ssh_known_hosts_path : Option String
  pub jump_host : Option String
  pub jump_port : ℤ
  pub jump_username : Option String
  pub jump_ssh_key_path : Option String
  pub command_timeout : ℤ
  pub source_networker : Option String

-- `default_minute_offset`; none is the `KeyError` of an unknown type.
unfoldable pub default_minute_offset : String → Option ℤ
default_minute_offset target_type =
    if target_type == "DXi"
    then some (pos 0)
    else if target_type == "DD"
    then some (pos 1)
    else if target_type == "i6000"
    then some (pos 2)
    else if target_type == "Networker"
    then some (pos 3)
    else if target_type == "ZFS"
    then some (pos 4)
    else none

-- `default_schedule`
abbrev every_five : Option ℤ → Option ScheduleConfig
every_five none = none
every_five (some offset) = some (record {
  interval_minutes = pos 5;
  minute_offset = offset;
  second = pos 0;
  legacy_schedule_second = none;
})

unfoldable pub default_schedule : String → Option ScheduleConfig
unfolding default_minute_offset
default_schedule target_type = every_five (default_minute_offset target_type)

abbrev pub every_minute : ℤ → ScheduleConfig
every_minute second = record {
  interval_minutes = pos 1;
  minute_offset = pos 0;
  second = second;
  legacy_schedule_second = some second;
}

-- `CollectorConfig.effective_schedule`
abbrev pub first_or_default : String → List (String × ScheduleConfig) → Option ScheduleConfig
first_or_default target_type [] = default_schedule target_type
first_or_default target_type ((class, s) ∷ rest) = some s

abbrev pub legacy_or_default : String → Option ℤ → Option ScheduleConfig
legacy_or_default target_type none = default_schedule target_type
legacy_or_default target_type (some second) = some (every_minute second)

abbrev pub effective_of : CollectorConfig → Schedules → Option ScheduleConfig
effective_of c (by_class schedules) = first_or_default c.target_type (schedule_items schedules)
effective_of c (single s) = some s
effective_of c unset = legacy_or_default c.target_type c.schedule_second

unfoldable pub effective_schedule : CollectorConfig → Option ScheduleConfig
effective_schedule c = effective_of c c.schedule

-- `CollectorConfig.effective_schedules`
abbrev pub as_fast : Option ScheduleConfig → Option (List (String × ScheduleConfig))
as_fast none = none
as_fast (some s) = some (("fast", s) ∷ [])

abbrev pub all_of : CollectorConfig → Schedules → Option (List (String × ScheduleConfig))
all_of c (by_class schedules) = some (schedule_items schedules)
all_of c (single s) = as_fast (effective_schedule c)
all_of c unset = as_fast (effective_schedule c)

unfoldable pub effective_schedules : CollectorConfig → Option (List (String × ScheduleConfig))
effective_schedules c = all_of c c.schedule
