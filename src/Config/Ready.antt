-- ===== src/Config/Ready.antt =====
-- What a collector that is not skipped can rely on.
use integrated_backup_monito.Prelude.{
  ◌<>◌, ℕ, ◌*◌, ◌≤◌, ◌<◌, String, ◌≡◌, refl, ap, Bool, true, false, Option, none, some, List, [],
  ◌∷◌, All, ◌==◌, string_eq, if◌then◌else◌,
}
use integrated_backup_monito.Prelude.Int.{ℤ, pos, pos_part, leb_ℤ}
use integrated_backup_monito.Value.{Runtime, fields}
use integrated_backup_monito.Schedule.{
  ScheduleConfig, skip_reason as schedule_skip_reason, schedule, sleep, seconds_until_next_run,
  minute_length,
}
use integrated_backup_monito.Schedule.Bounds.{seconds_until_next_run_bounds}
use integrated_backup_monito.Lookup.Result.{Result, ok, value_error}
use integrated_backup_monito.Lookup.Models.{validate_source_networker}
use integrated_backup_monito.Config.Placeholder.{has_unfilled_fields}
use integrated_backup_monito.Config.Collector.{CollectorConfig, effective_schedules}
use integrated_backup_monito.Config.Skip.{
  return_if, return_error, is_negative, rest_required, optional, networker_checks, type_checks,
  rest_skip_reason, named_reason, schedules_reason, protocol_reason, checked, skip_reason,
}
use integrated_backup_monito.Config.Needs.{
  IsReady, leb_ℤ-IsPositive, is_negative-IsSpacing, has_unfilled_values-IsFilled,
  rest_required-filled, source-known,
}

-- Each wait for the schedule is longer than nothing and at most its interval.
abbrev pub Waits : String × ScheduleConfig → Type 0
Waits (class, s) =
    (a b : Option ℤ) (now : ℕ)
    → (w : ℕ) × (seconds_until_next_run (schedule s) a b now ≡ sleep w)
      × (0 < w)
      × (w ≤ pos_part s.interval_minutes * minute_length)

named_reason-none :
    (class : String) (reason rest : Option String)
    → named_reason class reason rest ≡ none
    → (reason ≡ none) × (rest ≡ none)
named_reason-none class none rest h = (refl, h)
named_reason-none class (some reason) rest h = absurd (a_reason h)
  where
    a_reason : some (class <> (" " <> reason)) ≡ none → ⊥
    a_reason e = cc

schedules_reason-none :
    (schedules : List (String × ScheduleConfig)) (rest : Option String)
    → schedules_reason schedules rest ≡ none
    → All Waits schedules × (rest ≡ none)
unfolding schedules_reason
schedules_reason-none [] rest h = (tt, h)
schedules_reason-none ((class, s) ∷ schedules) rest h =
    let (passes, others) =
      named_reason-none class (schedule_skip_reason s) (schedules_reason schedules rest) h in
    let (all_wait, last) = schedules_reason-none schedules rest others in
    ((λ a b now. seconds_until_next_run_bounds s a b now passes, all_wait), last)

key_error : ◌≡◌ {A = Option (Option String)} none (some none) → ⊥
key_error h = cc

some_inner : (reason : Option String) → some reason ≡ some none → reason ≡ none
some_inner reason h = cc

checked-none :
    (schedules : Option (List (String × ScheduleConfig))) (reason : Option String)
    → checked schedules reason ≡ some none
    → (found : List (String × ScheduleConfig)) × (schedules ≡ some found)
      × All Waits found
      × (reason ≡ none)
checked-none none reason h = absurd (key_error h)
checked-none (some found) reason h =
    let (waits, last) =
      schedules_reason-none found reason (some_inner (schedules_reason found reason) h) in
    (found, refl, waits, last)

enabled_case :
    (enabled : Bool) (reason : Option (Option String))
    → (if enabled then reason else some (some "collector is disabled")) ≡ some none
    → (enabled ≡ true) × (reason ≡ some none)
enabled_case true reason h = (refl, h)
enabled_case false reason h = absurd (a_reason "collector is disabled" h)
  where
    a_reason : (text : String) → some (some text) ≡ some none → ⊥
    a_reason text e = cc

-- A collector that is not skipped is enabled, passes the checks of its protocol, and waits for each of the
-- schedules that it has longer than nothing and at most the schedule's interval.
pub skip_reason-none :
    (rt : Runtime) (is_file : String → Bool) (c : CollectorConfig)
    → skip_reason rt is_file c ≡ some none
    → (c.enabled ≡ true)
      × (schedules : List (String × ScheduleConfig)) × (effective_schedules c ≡ some schedules)
      × All Waits schedules
      × (protocol_reason rt is_file c ≡ none)
unfolding skip_reason
skip_reason-none rt is_file c h =
    let (enabled, unskipped) =
      enabled_case c.enabled (checked (effective_schedules c) (protocol_reason rt is_file c)) h in
    let (found, same, waits, last) =
      checked-none (effective_schedules c) (protocol_reason rt is_file c) unskipped in
    (enabled, found, same, waits, last)

return_if-none :
    (test : Bool) (reason : String) (rest : Option String)
    → return_if test reason rest ≡ none
    → (test ≡ false) × (rest ≡ none)
return_if-none false reason rest h = (refl, h)
return_if-none true reason rest h = absurd (a_reason h)
  where
    a_reason : some reason ≡ none → ⊥
    a_reason e = cc

return_error-none :
    (validated : Result String) (rest : Option String)
    → return_error validated rest ≡ none
    → ((source : String) × (validated ≡ ok source)) × (rest ≡ none)
return_error-none (ok source) rest h = ((source, refl), h)
return_error-none (value_error message) rest h = absurd (a_reason h)
  where
    a_reason : some message ≡ none → ⊥
    a_reason e = cc

networker_checks-none :
    (rt : Runtime) (is_file : String → Bool) (c : CollectorConfig) (rest : Option String)
    → networker_checks rt is_file c rest ≡ none
    → (leb_ℤ c.networker_query_window_minutes (pos 0) ≡ false)
      × (leb_ℤ c.networker_jobs_query_window_minutes (pos 0) ≡ false)
      × (leb_ℤ c.networker_backups_query_window_minutes (pos 0) ≡ false)
      × ((source : String) × (validate_source_networker rt (optional c.source_networker)
            ≡ ok source))
      × (rest ≡ none)
unfolding networker_checks
networker_checks-none rt is_file c rest h =
    let (window, h1) = return_if-none (leb_ℤ c.networker_query_window_minutes (pos 0)) _ _ h in
    let (jobs, h2) = return_if-none (leb_ℤ c.networker_jobs_query_window_minutes (pos 0)) _ _ h1 in
    let (backups, h3) =
      return_if-none (leb_ℤ c.networker_backups_query_window_minutes (pos 0)) _ _ h2 in
    let (source, h4) =
      return_error-none (validate_source_networker rt (optional c.source_networker)) _ h3 in
    let (file, h5) = return_if-none _ _ rest h4 in (window, jobs, backups, source, h5)

networker_types :
    (rt : Runtime) (is_file : String → Bool) (c : CollectorConfig) (rest : Option String)
    → c.target_type ≡ "Networker"
    → type_checks rt is_file c rest ≡ none
    → networker_checks rt is_file c rest ≡ none
unfolding type_checks
networker_types rt is_file c rest e h =
    let other : (c.target_type == "i6000") ≡ false = ap (λ t. t == "i6000") e in
    let this : (c.target_type == "Networker") ≡ true = ap (λ t. t == "Networker") e in
    rw (other, this) at h

rest_skip_reason-IsReady :
    (rt : Runtime) (is_file : String → Bool) (c : CollectorConfig)
    → c.target_type ≡ "Networker"
    → rest_skip_reason rt is_file c ≡ none
    → IsReady c
unfolding rest_skip_reason
rest_skip_reason-IsReady rt is_file c e h =
    let (concurrency, h1) = return_if-none (leb_ℤ c.rest_max_concurrency (pos 0)) _ _ h in
    let (spacing, h2) = return_if-none (is_negative c.rest_request_spacing_seconds) _ _ h1 in
    let (window, jobs, backups, source, h3) =
      networker_checks-none rt is_file c _ (networker_types rt is_file c _ e h2) in
    let (filled, h4) = return_if-none (has_unfilled_fields (fields (rest_required c))) _ _ h3 in
    let (base_url, username, password) = rest_required-filled c e filled in
    record {
      concurrency = leb_ℤ-IsPositive c.rest_max_concurrency concurrency;
      spacing = is_negative-IsSpacing c.rest_request_spacing_seconds spacing;
      window = leb_ℤ-IsPositive c.networker_query_window_minutes window;
      jobs_window = leb_ℤ-IsPositive c.networker_jobs_query_window_minutes jobs;
      backups_window = leb_ℤ-IsPositive c.networker_backups_query_window_minutes backups;
      source = source-known rt c.source_networker (source.0) (source.1);
      base_url = has_unfilled_values-IsFilled c.base_url base_url;
      username = has_unfilled_values-IsFilled c.username username;
      password = has_unfilled_values-IsFilled c.password password;
    }

-- A NetWorker collector over REST that is not skipped has a number of requests at a time and three query
-- windows of at least one, a spacing that is from zero on, positive infinity or not a number, a source
-- that stripped and lowered is core, chnl or info, and a base URL, a username and a password that are
-- given, not blank, and neither "TO_BE_FILLED" nor ending in "_TO_BE_FILLED" when stripped.
pub skip_reason-IsReady :
    (rt : Runtime) (is_file : String → Bool) (c : CollectorConfig)
    → c.protocol ≡ "rest"
    → c.target_type ≡ "Networker"
    → skip_reason rt is_file c ≡ some none
    → IsReady c
unfolding protocol_reason
skip_reason-IsReady rt is_file c p e h =
    let other : (c.protocol == "snmp") ≡ false = ap (λ t. t == "snmp") p in
    let this : (c.protocol == "rest") ≡ true = ap (λ t. t == "rest") p in
    let passes = skip_reason-none rt is_file c h in
    rest_skip_reason-IsReady rt is_file c e (rw (other, this) at (passes.4))
