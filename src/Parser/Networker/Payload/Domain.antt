-- ===== src/Parser/Networker/Payload/Domain.antt =====
-- The security domain of all that the parser returns is the configured one.
use mathlib.Core.Path.{subst}
use mathlib.Core.Option.{some-injective}
use integrated_backup_monito.Prelude.Chain.{bind-some}
use integrated_backup_monito.Prelude.{
  String, ◌≡◌, refl, ap, ◌∙◌, Option, none, some, List, [], ◌∷◌, string_eq, All,
}
use integrated_backup_monito.Value.{Value, str, Fields, Runtime, get, find}
use integrated_backup_monito.Value.Merge.{set_over, get-merge}
use integrated_backup_monito.Lookup.Result.{Result, ok, value_error}
use integrated_backup_monito.Lookup.Models.{validate_source_networker}
use integrated_backup_monito.Parser.Common.{Platform, each, items}
use integrated_backup_monito.Parser.Networker.Records.{
  normalize_job, normalize_policies, normalize_backup, classify_record, classify_all,
  classification,
}
use integrated_backup_monito.Parser.Networker.Monthly.{build_monthly_report}
use integrated_backup_monito.Parser.Networker.Payload.{
  Payload, normalize_clients, assemble, or_raise, parse_networker_rest_payload,
}

abbrev pub IsOf : String → Fields → Type 0
IsOf source entry =
    (get "source_networker" entry ≡ str source) × (get "security_domain" entry ≡ str source)

set_over-classification :
    (rt : Runtime) (source : String) (name : Option Value) (v w : Value)
    → (set_over "source_networker" (classification rt source name) v ≡ str source)
      × (set_over "security_domain" (classification rt source name) w ≡ str source)
set_over-classification rt source none v w = (refl, refl)
set_over-classification rt source (some name) v w = (refl, refl)

classify_record-IsOf :
    (rt : Runtime) (source : String) (item : Fields) → IsOf source (classify_record rt source item)
unfolding classify_record
classify_record-IsOf rt source item =
    let items = classification rt source (find "client_name" item) in
    let (of_source, of_domain) =
      set_over-classification rt source (find "client_name" item) (get "source_networker" item)
        (get "security_domain" item) in
    (
      get-merge "source_networker" item items ∙ of_source,
      get-merge "security_domain" item items ∙ of_domain,
    )

abbrev pub AllOf : String → List Fields → Type 0
AllOf source records = All (IsOf source) records

classify_all-IsOf :
    (rt : Runtime) (source : String) (items : List Fields)
    → AllOf source (classify_all rt source items)
unfolding classify_all
classify_all-IsOf rt source [] = _
classify_all-IsOf rt source (item ∷ items) =
    (classify_record-IsOf rt source item, classify_all-IsOf rt source items)

-- All records of a result are of one source.
abbrev pub IsUnified : String → Payload → Type 0
IsUnified source result =
    AllOf source result.jobs
    × AllOf source result.clients
    × AllOf source result.policies
    × AllOf source result.workflows
    × AllOf source result.backups
    × AllOf source result.monthly_report

or_raise-some : (r : Result String) (s : String) → or_raise r ≡ some s → r ≡ ok s
or_raise-some (ok a) s e = ap ok (some-injective a s e)
or_raise-some (value_error message) s e = absurd cc

-- Where the parser returns, the configured source is a supported one, and the source and the security
-- domain of each job, client, policy, workflow, backup and row of the monthly report are it.
pub parse-IsUnified :
    (rt : Runtime) (p : Platform) (payloads : Fields) (server : String) (configured : Value)
    (result : Payload)
    → parse_networker_rest_payload rt p payloads server configured ≡ some result
    → (source : String) × (validate_source_networker rt configured ≡ ok source)
      × IsUnified source result
unfolding parse_networker_rest_payload assemble
parse-IsUnified rt p payloads server configured result e =
    let (source, valid, e1) =
      bind-some (or_raise (validate_source_networker rt configured)) _ result e in
    let (jobs, _, e2) =
      bind-some (each (normalize_job rt p server source) (items (get "jobs" payloads) "jobs")) _
        result e1 in
    let (backups, _, e3) =
      bind-some
        (each (normalize_backup rt p server source) (items (get "backups" payloads) "backups")) _
        result e2 in
    let clients = normalize_clients rt server source (items (get "clients" payloads) "clients") in
    let (policies, workflows) = normalize_policies rt server (get "policies" payloads) in
    (
      source,
      or_raise-some (validate_source_networker rt configured) source valid,
      subst (IsUnified source) (some-injective _ result e3) (
        classify_all-IsOf rt source jobs,
        classify_all-IsOf rt source clients,
        classify_all-IsOf rt source policies,
        classify_all-IsOf rt source workflows,
        classify_all-IsOf rt source backups,
        classify_all-IsOf rt source (
            build_monthly_report rt p server (classify_all rt source jobs)
              (classify_all rt source clients) (classify_all rt source workflows)
              (classify_all rt source backups)),
      ),
    )
