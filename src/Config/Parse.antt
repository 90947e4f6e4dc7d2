-- ===== src/Config/Parse.antt =====
-- apps/core/config.py: `_parse_collector`, `_parse_schedule` and what they call. None of a result is an
-- exception: a missing key, an unknown type, a mapping that is none, or a failing conversion.
use integrated_backup_monito.Prelude.Chain.{◌>>=◌}
use integrated_backup_monito.Prelude.{
  ◌<>◌, String, Bool, true, false, ◌||◌, ◌&&◌, not, Option, none, some, ◌==◌, string_eq,
  if◌then◌else◌,
}
use integrated_backup_monito.Prelude.Int.{ℤ, pos, leb_ℤ}
use integrated_backup_monito.Prelude.Text.{upper}
use integrated_backup_monito.Value.{
  Float, Value, null, bool, int, str, arr, obj, Items, Fields, end, Runtime, find, get, get_or,
  or_else, truthy, show,
}
use integrated_backup_monito.Schedule.{ScheduleConfig}
use integrated_backup_monito.Config.Placeholder.{has_unfilled_values, optional}
use integrated_backup_monito.Config.Collector.{
  CollectionSchedules, Schedules, single, by_class, CollectorConfig, default_minute_offset,
  default_schedule, every_minute,
}

-- `int(v)`, `float(v)`, and `Path(path).read_text(encoding="utf-8")`
pub record Loader : Type 0 where
  pub to_int : Value → Option ℤ
  pub to_float : Value → Option Float
  pub read_text : String → Option String

abbrev pub mapping : Value → Option Fields
mapping (obj fs) = some fs
mapping _ = none

abbrev pub text : Value → Option String
text (str s) = some s
text _ = none

-- `raw[key]`, a text
abbrev pub required : String → Fields → Option String
required key raw = elim (find key raw) [ none ↦ none | some v ↦ text v ]

abbrev pub has_key : String → Fields → Bool
has_key key raw = elim (find key raw) [ none ↦ false | some v ↦ true ]

-- `int(raw[key]) if raw.get(key) is not None else None`
abbrev pub some_int : Option ℤ → Option (Option ℤ)
some_int none = none
some_int (some n) = some (some n)

abbrev pub optional_int : Loader → Value → Option (Option ℤ)
optional_int load null = some none
optional_int load v = some_int (load.to_int v)

-- `_optional_secret`
abbrev pub secret_file : Runtime → Loader → Option String → Option (Option String)
secret_file rt load none = some none
secret_file rt load (some path) = elim (load.read_text path) [
  | none ↦ none
  | some content ↦ some (optional rt (str content))
]

abbrev pub or_file : Option String → Option (Option String) → Option (Option String)
or_file (some value) file = some (some value)
or_file none file = file

unfoldable pub optional_secret : Runtime → Loader → Fields → String → Option (Option String)
unfolding get optional
optional_secret rt load raw key =
    or_file (optional rt (get key raw))
      (secret_file rt load (optional rt (get (key <> "_file") raw)))

-- `_schedule_from_mapping`
abbrev pub fitting : ℤ → ℤ → ℤ
fitting interval_minutes offset = if leb_ℤ interval_minutes offset then pos 0 else offset

unfoldable pub schedule_from_mapping : Loader → Value → String → ℤ → ℤ → Option ScheduleConfig
unfolding default_minute_offset find
schedule_from_mapping load value target_type default_interval_minutes default_second_value = do
  raw ← mapping value
  interval_minutes ← load.to_int (get_or "interval_minutes" (int default_interval_minutes) raw)
  offset ← default_minute_offset target_type
  minute_offset ← load.to_int (get_or "minute_offset" (int (fitting interval_minutes offset)) raw)
  second ← load.to_int (get_or "second" (int default_second_value) raw)
  some (record {
    interval_minutes = interval_minutes;
    minute_offset = minute_offset;
    second = second;
    legacy_schedule_second = none;
  })

-- The schedule of one class, where its test holds.
abbrev pub class_schedule : Loader → Bool → Value → String → ℤ → ℤ → Option (Option ScheduleConfig)
class_schedule load false value target_type interval second = some none
class_schedule load true value target_type interval second =
    elim (schedule_from_mapping load value target_type interval second) [
      | none ↦ none
      | some s ↦ some (some s)
    ]

abbrev pub or_mapping : Value → Value
or_mapping v = or_else v (obj end)

abbrev pub is_some_value : Value → Bool
is_some_value null = false
is_some_value v = true

unfoldable pub class_schedules : Loader → Fields → String → Option CollectionSchedules
unfolding get or_else schedule_from_mapping find
class_schedules load raw target_type = do
  fast ←
      class_schedule load (has_key "fast" raw) (or_mapping (get "fast" raw)) target_type (pos 5)
        (pos 0)
  slow ←
      class_schedule load (is_some_value (get "slow" raw)) (or_mapping (get "slow" raw)) target_type
        (pos 60) (pos 30)
  jobs ←
      class_schedule load (has_key "jobs" raw) (or_mapping (get "jobs" raw)) target_type (pos 5)
        (pos 0)
  backups ←
      class_schedule load (has_key "backups" raw) (or_mapping (get "backups" raw)) target_type
        (pos 15) (pos 0)
  inventory ←
      class_schedule load (has_key "inventory" raw) (or_mapping (get "inventory" raw)) target_type
        (if target_type == "Networker" then pos 1440 else pos 60) (pos 0)
  some (record { fast = fast; slow = slow; jobs = jobs; backups = backups; inventory = inventory })

-- `_parse_schedule`: the schedule and the legacy second.
abbrev pub with_classes : Option CollectionSchedules → Option (Schedules × Option ℤ)
with_classes none = none
with_classes (some c) = some (by_class c, none)

abbrev pub alone : Option ScheduleConfig → Option (Schedules × Option ℤ)
alone none = none
alone (some s) = some (single s, none)

abbrev pub legacy : Option ℤ → Option (Schedules × Option ℤ)
legacy none = none
legacy (some second) = some (single (every_minute second), some second)

unfoldable pub has_classes : Fields → Bool
unfolding find
has_classes raw =
    has_key "fast" raw
    || has_key "slow" raw
    || has_key "jobs" raw
    || has_key "backups" raw
    || has_key "inventory" raw

abbrev pub of_mapping : Loader → String → Value → Option (Schedules × Option ℤ)
of_mapping load target_type (obj raw) =
    if has_classes raw
    then with_classes (class_schedules load raw target_type)
    else alone (schedule_from_mapping load (obj raw) target_type (pos 5) (pos 0))
of_mapping load target_type _ = none

unfoldable pub parse_schedule : Loader → Fields → String → Option (Schedules × Option ℤ)
unfolding find get or_else default_schedule
parse_schedule load raw target_type =
    if has_key "schedule" raw
    then of_mapping load target_type (or_mapping (get "schedule" raw))
    else if has_key "schedule_second" raw
    then legacy (load.to_int (get "schedule_second" raw))
    else alone (default_schedule target_type)

-- `_parse_collector`. `rest` and the dicts of endpoints, commands and OIDs are mappings.
abbrev pub dict_at : String → Fields → Option Fields
dict_at key raw = mapping (get_or key (obj end) raw)

unfoldable pub parse_collector : Runtime → Loader → Fields → Option CollectorConfig
unfolding find get truthy show upper optional optional_secret or_else parse_schedule
parse_collector rt load raw = do
  target_type ← required "type" raw
  schedule ← parse_schedule load raw target_type
  rest ← mapping (or_mapping (get "rest" raw))
  name ← required "name" raw
  protocol ← required "protocol" raw
  port ← load.to_int (get_or "port" (int (pos 161)) raw)
  snmp_port ← optional_int load (get "snmp_port" raw)
  ssh_port ← optional_int load (get "ssh_port" raw)
  community ← optional_secret rt load raw "community"
  timeout_seconds ← load.to_int (get_or "timeout_seconds" (int (pos 5)) raw)
  retries ← load.to_int (get_or "retries" (int (pos 1)) raw)
  oids ← dict_at "oids" raw
  walk_oids ← dict_at "walk_oids" raw
  endpoints ← dict_at "endpoints" raw
  token ← optional_secret rt load raw "token"
  username ← optional_secret rt load raw "username"
  password ← optional_secret rt load raw "password"
  max_concurrency ← load.to_int (get_or "max_concurrency" (int (pos 4)) rest)
  spacing ← load.to_float (get_or "request_spacing_seconds" (int (pos 0)) rest)
  window ← load.to_int (get_or "query_window_minutes" (int (pos 20)) rest)
  jobs_window ←
      load.to_int (
        get_or "jobs_query_window_minutes" (get_or "query_window_minutes" (int (pos 10)) rest) rest)
  backups_window ← load.to_int (
      get_or "backups_query_window_minutes" (get_or "query_window_minutes" (int (pos 20)) rest)
        rest)
  commands ← dict_at "commands" raw
  jump_port ← load.to_int (get_or "jump_port" (int (pos 22)) raw)
  command_timeout ← load.to_int (get_or "command_timeout" (int (pos 30)) raw)
  some (record {
    name = name;
    target_type = target_type;
    protocol = protocol;
    enabled = truthy (get_or "enabled" (bool true) raw);
    schedule = schedule.0;
    schedule_second = schedule.1;
    host = optional rt (get "host" raw);
    port = port;
    snmp_port = snmp_port;
    ssh_port = ssh_port;
    community = community;
    version = show rt (get_or "version" (str "2c") raw);
    timeout_seconds = timeout_seconds;
    retries = retries;
    oids = oids;
    walk_oids = walk_oids;
    base_url = optional rt (get "base_url" raw);
    endpoint = optional rt (get "endpoint" raw);
    endpoints = endpoints;
    method = upper (show rt (get_or "method" (str "GET") raw));
    token = token;
    username = username;
    password = password;
    verify_tls = truthy (get_or "verify_tls" (bool true) raw);
    ca_certs = optional rt (get "ca_certs" raw);
    rest_max_concurrency = max_concurrency;
    rest_request_spacing_seconds = spacing;
    networker_query_window_minutes = window;
    networker_jobs_query_window_minutes = jobs_window;
    networker_backups_query_window_minutes = backups_window;
    networker_field_filter = truthy (get_or "field_filter" (bool true) rest);
    commands = commands;
    ssh_key_path = optional rt (get "ssh_key_path" raw);
    ssh_known_hosts_path = optional rt (get "ssh_known_hosts_path" raw);
    jump_host = optional rt (get "jump_host" raw);
    jump_port = jump_port;
    jump_username = optional rt (get "jump_username" raw);
    jump_ssh_key_path = optional rt (get "jump_ssh_key_path" raw);
    command_timeout = command_timeout;
    source_networker = optional rt (get "source_networker" raw);
  })

-- `_parse_elasticsearch`, and `ElasticsearchConfig.is_ready`
pub record ElasticsearchConfig : Type 0 where
  pub enabled : Bool
  pub hosts : Items
  pub index_prefix : Value
  pub username : Option String
  pub password : Option String
  pub verify_certs : Bool
  pub ca_certs : Value

abbrev pub items_of : Value → Option Items
items_of (arr items) = some items
items_of _ = none

abbrev pub default_hosts : Value
default_hosts = arr (Items.cons (str "http://elasticsearch:9200") Items.nil)

unfoldable pub parse_elasticsearch : Runtime → Loader → Fields → Option ElasticsearchConfig
unfolding find get truthy optional_secret
parse_elasticsearch rt load raw = do
  hosts ← items_of (get_or "hosts" default_hosts raw)
  username ← optional_secret rt load raw "username"
  password ← optional_secret rt load raw "password"
  some (record {
    enabled = truthy (get_or "enabled" (bool false) raw);
    hosts = hosts;
    index_prefix = get_or "index_prefix" (str "backup-dashboard") raw;
    username = username;
    password = password;
    verify_certs = truthy (get_or "verify_certs" (bool true) raw);
    ca_certs = get "ca_certs" raw;
  })

unfoldable pub is_ready : ElasticsearchConfig → Bool
unfolding has_unfilled_values
is_ready config = config.enabled && not (has_unfilled_values (arr config.hosts))
