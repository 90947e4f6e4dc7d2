-- ===== src/Client/Windows.antt =====
-- The request plan of `fetch_payloads` always exists.
use integrated_backup_monito.Prelude.{
  ℕ, ◌-◌, ◌*◌, String, ◌≡◌, refl, ap, ◌∙◌, Bool, Option, none, some, List, [], ◌∷◌, ◌==◌, string_eq,
  arith, eq_iff, Bool-cases, All, inl, inr,
}
use integrated_backup_monito.Prelude.Dict.{Dict, lookup}
use integrated_backup_monito.Value.{Runtime}
use integrated_backup_monito.Client.Plan.{
  ClientConfig, RequestSpec, minutes_by_endpoint, add_window, query_windows, time_field,
  field_params, request_spec, with_window, timed, build_request_plan,
}

-- A window stands under the name.
abbrev HasWindow : Dict String ℕ → String → Type 0
HasWindow windows name = (start : ℕ) × (lookup name windows ≡ some start)

-- Every endpoint that is asked with a window has one.
abbrev Covered : Dict String ℕ → String × String → Type 0
Covered windows e = (field : String) → time_field e.0 ≡ some field → HasWindow windows e.0

module _ (config : ClientConfig) (window_end : ℕ) where
  add_window-has :
      (name other : String) (minutes : Option ℕ) (windows : Dict String ℕ)
      → HasWindow windows name
      → HasWindow (add_window other window_end minutes windows) name
  unfolding lookup
  add_window-has name other none windows h = h
  add_window-has name other (some m) windows h = elim (Bool-cases (name == other)) [
    | inl here ↦ (window_end - m * 60000000, rw here refl)
    | inr further ↦ (h.0, rw further h.1)
  ]

  own_window :
      (name : String) (minutes : Option ℕ) (windows : Dict String ℕ) (m : ℕ)
      → minutes ≡ some m
      → HasWindow (add_window name window_end minutes windows) name
  unfolding lookup
  own_window name none windows m h = absurd (no_minutes m h)
    where
      no_minutes : (n : ℕ) → none ≡ some n → ⊥
      no_minutes n e = cc
  own_window name (some k) windows m h =
      (window_end - k * 60000000, ground (arith, (eq_iff name name).1 refl))

  timed_minutes :
      (name field : String)
      → time_field name ≡ some field
      → (m : ℕ) × (minutes_by_endpoint config name ≡ some m)
  timed_minutes name field h = elim (Bool-cases (name == "jobs")) [
    | inl jobs ↦ (config.jobs_query_window_minutes, rw jobs refl)
    | inr other ↦ elim (Bool-cases (name == "backups")) [
      | inl backups ↦ (config.backups_query_window_minutes, rw (other, backups) refl)
      | inr neither ↦ absurd (ground (arith, h, other, neither))
    ]
  ]

  All-Covered :
      (name : String) (minutes : Option ℕ) (windows : Dict String ℕ)
      (endpoints : Dict String String)
      → All (Covered windows) endpoints
      → All (Covered (add_window name window_end minutes windows)) endpoints
  All-Covered name minutes windows [] h = tt
  All-Covered name minutes windows ((other, e) ∷ endpoints) h = (
    λ field timed. add_window-has other name minutes windows (h.0 field timed),
    All-Covered name minutes windows endpoints h.1,
  )

  windows-cover :
      (endpoints : Dict String String)
      → All (Covered (query_windows config endpoints window_end)) endpoints
  unfolding query_windows
  windows-cover [] = tt
  windows-cover ((name, e) ∷ endpoints) =
      let rest = query_windows config endpoints window_end in
      (
        λ field timed.
            let (m, found) = timed_minutes name field timed in
            own_window name (minutes_by_endpoint config name) rest m found,
        All-Covered name (minutes_by_endpoint config name) rest endpoints (windows-cover endpoints),
      )

-- Whom a request and a plan ask.
abbrev pub asks : RequestSpec → String × String
asks spec = (spec.result_name, spec.endpoint)

abbrev pub asked : List RequestSpec → Dict String String
asked [] = []
asked (spec ∷ plan) = asks spec ∷ asked plan

same_plan :
    (spec : RequestSpec) (plan : List RequestSpec) (e : String × String)
    (endpoints : Dict String String)
    → asks spec ≡ e
    → asked plan ≡ endpoints
    → asks spec ∷ asked plan ≡ e ∷ endpoints
same_plan spec plan e endpoints h k = ap (λ d. d ∷ asked plan) h ∙ ap (λ rest. e ∷ rest) k

module _ (rt : Runtime) (field_filter : Bool) (window_end : ℕ) (windows : Dict String ℕ) where
  abbrev Spec : String × String → Type 0
  Spec e =
      (spec : RequestSpec) × (request_spec rt field_filter windows window_end e ≡ some spec)
      × (asks spec ≡ e)

  timed-exists :
      (spec : RequestSpec) (name : String) (found : Option ℕ) (start : ℕ)
      → found ≡ some start
      → (made : RequestSpec) × (timed rt spec name window_end found ≡ some made)
        × (asks made ≡ asks spec)
  timed-exists spec name none start h = absurd (no_start start h)
    where
      no_start : (n : ℕ) → none ≡ some n → ⊥
      no_start n e = cc
  timed-exists spec name (some t) start h = (_, refl, refl)

  with_window-exists :
      (spec : RequestSpec) (field : Option String)
      → ((name : String) → field ≡ some name → HasWindow windows spec.result_name)
      → (made : RequestSpec) × (with_window rt spec field windows window_end ≡ some made)
        × (asks made ≡ asks spec)
  with_window-exists spec none h = (spec, refl, refl)
  with_window-exists spec (some name) h =
      let (start, found) = h name refl in
      timed-exists spec name (lookup spec.result_name windows) start found

  request_spec-exists : (e : String × String) → Covered windows e → Spec e
  unfolding request_spec
  request_spec-exists (name, endpoint) h =
      with_window-exists
        (record {
          result_name = name;
          endpoint = endpoint;
          params = field_params field_filter name;
        })
        (time_field name) h

  plan-exists :
      (endpoints : Dict String String)
      → All (Covered windows) endpoints
      → (plan : List RequestSpec) × (build_request_plan rt field_filter windows window_end endpoints
          ≡ some plan)
        × (asked plan ≡ endpoints)
  unfolding build_request_plan
  plan-exists [] h = ([], refl, refl)
  plan-exists (e ∷ endpoints) h =
      let (spec, made, same_one) = request_spec-exists e h.0 in
      let (plan, built, same_rest) = plan-exists endpoints h.1 in
      (spec ∷ plan, rw (made, built) refl, same_plan spec plan e endpoints same_one same_rest)

-- With the windows of a configuration the request plan of any endpoints is built without a `KeyError`, and
-- it asks each endpoint once, in their order and under their names.
pub build_request_plan_complete :
    (rt : Runtime) (config : ClientConfig) (window_end : ℕ) (endpoints : Dict String String)
    → (plan : List RequestSpec) × (build_request_plan rt config.field_filter
          (query_windows config endpoints window_end)
          window_end
          endpoints
        ≡ some plan)
      × (asked plan ≡ endpoints)
build_request_plan_complete rt config window_end endpoints =
    plan-exists rt config.field_filter window_end (query_windows config endpoints window_end)
      endpoints (windows-cover config window_end endpoints)
