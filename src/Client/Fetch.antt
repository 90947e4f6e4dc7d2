-- ===== src/Client/Fetch.antt =====
-- apps/clients/networker_rest_client.py, `fetch_payloads`: the requests of one collection. A request's
-- end is a parameter, a function of its place in the plan.
use integrated_backup_monito.Prelude.{
  ℕ, suc, ◌-◌, ◌/◌, String, Option, none, some, List, [], ◌∷◌, string_eq, ltb, if◌then◌else◌,
}
use integrated_backup_monito.Prelude.Dict.{Dict, insert}
use integrated_backup_monito.Value.{Runtime}
use integrated_backup_monito.Client.Plan.{
  ClientConfig, RequestSpec, configured_endpoints, endpoints_for_class, query_windows,
  build_request_plan, combine_responses, format_query_time,
}

-- What a request returns, or the text of its exception.
pub data Reply {ℓ} (A : Type ℓ) : Type ℓ where
  json : A → Reply A
  error : String → Reply A

module _ {ℓ} {A : Type ℓ} where
  abbrev pub note :
      String → Reply A → Dict String A × Dict String String → Dict String A × Dict String String
  note name (json payload) (responses, errors) = (insert name payload responses, errors)
  note name (error text) (responses, errors) = (responses, insert name text errors)

  -- The loop over the plan.
  unfoldable pub send :
      (ℕ → Reply A)
      → ℕ
      → List RequestSpec
      → Dict String A × Dict String String
      → Dict String A × Dict String String
  unfolding insert
  send reply index [] noted = noted
  send reply index (request ∷ plan) noted =
      send reply (suc index) plan (note request.result_name (reply index) noted)

-- `timed_windows`: start, end and whole minutes of each window.
pub record TimedWindow : Type 0 where
  pub start : String
  pub finish : String
  pub minutes : ℕ

unfoldable pub timed_windows : Runtime → ℕ → Dict String ℕ → Dict String TimedWindow
timed_windows rt window_end [] = []
timed_windows rt window_end ((name, start) ∷ windows) =
    (
      name,
      record {
        start = format_query_time rt start;
        finish = format_query_time rt window_end;
        minutes = (window_end - start) / 60000000;
      },
    )
    ∷ timed_windows rt window_end windows

-- `max(..., key=minutes)`: the first of the longest.
abbrev pub longer : TimedWindow → Option TimedWindow → Option TimedWindow
longer w none = some w
longer w (some v) = if ltb w.minutes v.minutes then some v else some w

unfoldable pub longest : Dict String TimedWindow → Option TimedWindow
longest [] = none
longest ((name, w) ∷ windows) = longer w (longest windows)

pub record Payloads {ℓ} (A : Type ℓ) : Type ℓ where
  pub payloads : Dict String A
  pub query_window : Option TimedWindow
  pub windows : Dict String TimedWindow
  pub errors : Dict String String

module _ {ℓ} {A : Type ℓ} where
  abbrev collected :
      Runtime
      → Dict String String
      → Dict String ℕ
      → ℕ
      → Dict String A × Dict String String
      → Payloads A
  unfolding combine_responses timed_windows longest
  collected rt endpoints starts window_end (responses, errors) = record {
    payloads = combine_responses endpoints responses;
    query_window = longest (timed_windows rt window_end starts);
    windows = timed_windows rt window_end starts;
    errors = errors;
  }

  abbrev sent :
      Runtime
      → (ℕ → Reply A)
      → Dict String String
      → Dict String ℕ
      → ℕ
      → Option (List RequestSpec)
      → Option (Payloads A)
  unfolding send
  sent rt reply endpoints starts window_end none = none
  sent rt reply endpoints starts window_end (some plan) =
      some (collected rt endpoints starts window_end (send reply 0 plan ([], [])))

  unfoldable pub fetch_payloads :
      Runtime → ClientConfig → Option String → ℕ → (ℕ → Reply A) → Option (Payloads A)
  unfolding endpoints_for_class query_windows build_request_plan send combine_responses
      timed_windows longest
  fetch_payloads rt config class window_end reply =
      let endpoints = endpoints_for_class (configured_endpoints config.endpoints) class in
      let starts = query_windows config endpoints window_end in
      sent rt reply endpoints starts window_end
        (build_request_plan rt config.field_filter starts window_end endpoints)
