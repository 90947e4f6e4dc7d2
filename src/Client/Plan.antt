-- ===== src/Client/Plan.antt =====
-- apps/clients/networker_rest_client.py: the endpoints of a class, the query windows and the request
-- plan. Times are instants of UTC in microseconds; a window that starts before the calendar overflows
-- in the source and starts at 0 here.
use integrated_backup_monito.Prelude.{
  ℕ, ◌-◌, ◌*◌, ◌<>◌, String, Bool, true, ◌||◌, Option, none, some, List, [], ◌∷◌, ◌==◌, string_eq,
  contains, if◌then◌else◌,
}
use integrated_backup_monito.Prelude.Dict.{Dict, lookup}
use integrated_backup_monito.Value.{Runtime}

-- The part of `CollectorConfig` that the client reads.
pub record ClientConfig : Type 0 where
  pub endpoints : Dict String String
  pub jobs_query_window_minutes : ℕ
  pub backups_query_window_minutes : ℕ
  pub field_filter : Bool
  pub retries : ℕ

-- `CLASS_ENDPOINTS`; an unknown class selects nothing.
unfoldable pub class_endpoints : String → List String
class_endpoints class =
    if class == "fast"
    then "jobs" ∷ "backups" ∷ []
    else if class == "slow" || class == "inventory"
    then "clients" ∷ "policies" ∷ []
    else if class == "jobs"
    then "jobs" ∷ []
    else if class == "backups"
    then "backups" ∷ []
    else []

-- `DEFAULT_ENDPOINTS`
abbrev pub default_endpoints : Dict String String
default_endpoints =
    ("jobs", "nwrestapi/v3/global/jobs")
    ∷ ("clients", "nwrestapi/v3/global/clients")
    ∷ ("backups", "nwrestapi/v3/global/backups")
    ∷ ("policies", "nwrestapi/v3/global/protectionpolicies")
    ∷ []

-- `self.config.endpoints or DEFAULT_ENDPOINTS`
abbrev pub configured_endpoints : Dict String String → Dict String String
configured_endpoints [] = default_endpoints
configured_endpoints (e ∷ endpoints) = e ∷ endpoints

-- `_endpoints_for_class`
unfoldable pub select : List String → Dict String String → Dict String String
select selected [] = []
select selected ((name, endpoint) ∷ endpoints) =
    let rest = select selected endpoints in
    if contains name selected then (name, endpoint) ∷ rest else rest

unfoldable pub endpoints_for_class : Dict String String → Option String → Dict String String
unfolding class_endpoints select
endpoints_for_class endpoints none = endpoints
endpoints_for_class endpoints (some class) = select (class_endpoints class) endpoints

-- `_query_windows`: the start of each window.
abbrev pub minutes_by_endpoint : ClientConfig → String → Option ℕ
minutes_by_endpoint config name =
    if name == "jobs"
    then some config.jobs_query_window_minutes
    else if name == "backups"
    then some config.backups_query_window_minutes
    else none

abbrev pub add_window : String → ℕ → Option ℕ → Dict String ℕ → Dict String ℕ
add_window name window_end none windows = windows
add_window name window_end (some minutes) windows =
    (name, window_end - minutes * 60000000) ∷ windows

unfoldable pub query_windows : ClientConfig → Dict String String → ℕ → Dict String ℕ
query_windows config [] window_end = []
query_windows config ((name, endpoint) ∷ endpoints) window_end =
    add_window name window_end (minutes_by_endpoint config name)
      (query_windows config endpoints window_end)

-- `_format_query_time`, `_time_range_query`
abbrev pub format_query_time : Runtime → ℕ → String
format_query_time rt t = rt.strftime "%Y-%m-%dT%H:%M:%S" t

unfoldable pub time_range_query : Runtime → String → ℕ → ℕ → String
time_range_query rt name start finish =
    name
    <> (":[\""
        <> (format_query_time rt start <> ("\" TO \"" <> (format_query_time rt finish <> "\"]"))))

-- `_RequestSpec`, its `result_name` and `endpoint_name` being one.
pub record RequestSpec : Type 0 where
  pub result_name : String
  pub endpoint : String
  pub params : Dict String String

-- `FIELD_FILTERS`
abbrev pub field_filters : String → Option String
field_filters name =
    if name == "clients"
    then some "resourceId,hostname,clientState,operatingSystem,backupType"
    else if name == "policies"
    then some "name,comment,resourceId,workflows"
    else none

abbrev filter_params : Bool → Option String → Dict String String
filter_params true (some fl) = ("fl", fl) ∷ []
filter_params _ _ = []

unfoldable pub field_params : Bool → String → Dict String String
field_params field_filter name =
    filter_params (name == "clients" || field_filter) (field_filters name)

-- `_build_request_plan`, one endpoint; none is the `KeyError` of a missing window.
abbrev pub time_field : String → Option String
time_field name =
    if name == "jobs" then some "endTime" else if name == "backups" then some "saveTime" else none

abbrev pub timed : Runtime → RequestSpec → String → ℕ → Option ℕ → Option RequestSpec
timed rt spec name window_end none = none
timed rt spec name window_end (some start) = some (record {
  result_name = spec.result_name;
  endpoint = spec.endpoint;
  params = ("q", time_range_query rt name start window_end) ∷ spec.params;
})

abbrev pub with_window :
    Runtime → RequestSpec → Option String → Dict String ℕ → ℕ → Option RequestSpec
with_window rt spec none windows window_end = some spec
with_window rt spec (some name) windows window_end =
    timed rt spec name window_end (lookup spec.result_name windows)

unfoldable pub request_spec :
    Runtime → Bool → Dict String ℕ → ℕ → String × String → Option RequestSpec
unfolding field_params time_range_query lookup
request_spec rt field_filter windows window_end (name, endpoint) =
    with_window rt
      (record { result_name = name; endpoint = endpoint; params = field_params field_filter name })
      (time_field name) windows window_end

-- `_build_request_plan`
abbrev pub both : Option RequestSpec → Option (List RequestSpec) → Option (List RequestSpec)
both (some spec) (some plan) = some (spec ∷ plan)
both _ _ = none

unfoldable pub build_request_plan :
    Runtime → Bool → Dict String ℕ → ℕ → Dict String String → Option (List RequestSpec)
unfolding request_spec
build_request_plan rt field_filter windows window_end [] = some []
build_request_plan rt field_filter windows window_end (e ∷ endpoints) =
    both (request_spec rt field_filter windows window_end e)
      (build_request_plan rt field_filter windows window_end endpoints)

-- `_combine_responses`
abbrev add_response {ℓ} : {A : Type ℓ} → String → Option A → Dict String A → Dict String A
add_response name none rest = rest
add_response name (some a) rest = (name, a) ∷ rest

unfoldable pub combine_responses {ℓ} :
    {A : Type ℓ} → Dict String String → Dict String A → Dict String A
unfolding lookup
combine_responses [] responses = []
combine_responses ((name, endpoint) ∷ endpoints) responses =
    add_response name (lookup name responses) (combine_responses endpoints responses)
