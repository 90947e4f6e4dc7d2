-- ===== src/Client/Tests.antt =====
-- The law of the retries, applied to a request that timeouts and a 503 precede, and the request plan of
-- the default endpoints.
use integrated_backup_monito.Prelude.{◌≡◌, List, [], some, true, ℕ, zero, suc, String}
use integrated_backup_monito.Value.Example.{plain}
use integrated_backup_monito.Client.Plan.{
  ClientConfig, RequestSpec, default_endpoints, query_windows, build_request_plan,
}
use integrated_backup_monito.Client.Windows.{asked, build_request_plan_complete}
use integrated_backup_monito.Client.Retry.{Attempt, answered, http_status, timed_out, get_json}
use integrated_backup_monito.Client.Laws.{IsEnd, get_json-IsEnd}

third_answers : ℕ → Attempt String
third_answers zero = timed_out
third_answers (suc zero) = timed_out
third_answers (suc (suc zero)) = http_status 503
third_answers (suc (suc (suc n))) = answered "payload"

get_json-IsEnd_example : IsEnd third_answers 1 5 (get_json third_answers 4)
get_json-IsEnd_example = get_json-IsEnd third_answers 4

abbrev ten_and_twenty : ClientConfig
ten_and_twenty = record {
  endpoints = [];
  jobs_query_window_minutes = 10;
  backups_query_window_minutes = 20;
  field_filter = true;
  retries = 1;
}

build_request_plan_complete_example :
    (plan : List RequestSpec) × (build_request_plan plain ten_and_twenty.field_filter
        (query_windows ten_and_twenty default_endpoints 172800000000)
        172800000000
        default_endpoints
      ≡ some plan)
    × (asked plan ≡ default_endpoints)
build_request_plan_complete_example =
    build_request_plan_complete plain ten_and_twenty 172800000000 default_endpoints
