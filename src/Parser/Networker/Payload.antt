-- ===== src/Parser/Networker/Payload.antt =====
-- apps/parsers/networker_rest_parser.py, `parse_networker_rest_payload`.
pub mod Domain
use integrated_backup_monito.Prelude.Chain.{◌>>=◌}
use integrated_backup_monito.Prelude.{
  ℕ, String, Bool, Option, none, some, List, [], ◌∷◌, Eq, string_eq,
}
use integrated_backup_monito.Value.{Value, str, obj, Fields, end, Runtime, get, merge, fields}
use integrated_backup_monito.Lookup.Result.{Result, ok, value_error}
use integrated_backup_monito.Lookup.Models.{validate_source_networker}
use integrated_backup_monito.Parser.Common.{Platform, each, items}
use integrated_backup_monito.Parser.Networker.Records.{
  normalize_job, normalize_client, normalize_policies, normalize_backup, classify_all,
}
use integrated_backup_monito.Parser.Networker.Counter.{counter}
use integrated_backup_monito.Parser.Networker.Summary.{
  text_at, any_record, keys_with, counts_value, build_summary,
}
use integrated_backup_monito.Parser.Networker.Monthly.{build_monthly_report}

-- What the parser returns
pub record Payload : Type 0 where
  pub summary : Fields
  pub jobs : List Fields
  pub backups : List Fields
  pub clients : List Fields
  pub policies : List Fields
  pub workflows : List Fields
  pub monthly_report : List Fields

abbrev or_raise {ℓ} : {A : Type ℓ} → Result A → Option A
or_raise (ok a) = some a
or_raise _ = none

unfoldable pub normalize_clients : Runtime → String → String → List Fields → List Fields
unfolding normalize_client
normalize_clients rt server source [] = []
normalize_clients rt server source (c ∷ cs) =
    normalize_client rt server source c ∷ normalize_clients rt server source cs

-- `dict(query_window)`
abbrev query_window : Value → Fields
unfolding fields
query_window (obj window) = fields (("query_window", obj window) ∷ [])
query_window _ = end

unfoldable pub domain_counts : List Fields → Fields
unfolding counts_value counter keys_with get
domain_counts clients =
    counts_value (counter (keys_with any_record (text_at "security_domain") clients))

-- The records once they are classified
abbrev assemble :
    Runtime
    → Platform
    → Fields
    → String
    → String
    → List Fields
    → List Fields
    → List Fields
    → List Fields
    → List Fields
    → Payload
unfolding build_summary domain_counts merge fields get query_window classify_all
    build_monthly_report
assemble rt p payloads server source jobs clients policies workflows backups =
    let summary = build_summary server jobs clients policies workflows backups in
    let counted = fields (
      ("source_networker", str source)
      ∷ ("client_count_by_domain", obj (domain_counts clients))
      ∷ []) in
    record {
      summary = merge (merge summary counted) (query_window (get "_query_window" payloads));
      jobs = jobs;
      backups = backups;
      clients = clients;
      policies = policies;
      workflows = workflows;
      monthly_report =
          classify_all rt source (build_monthly_report rt p server jobs clients workflows backups);
    }

unfoldable pub parse_networker_rest_payload :
    Runtime → Platform → Fields → String → Value → Option Payload
unfolding validate_source_networker each items normalize_job normalize_clients normalize_policies
    normalize_backup classify_all get assemble
parse_networker_rest_payload rt p payloads server source_networker = do
  source ← or_raise (validate_source_networker rt source_networker)
  jobs ← each (normalize_job rt p server source) (items (get "jobs" payloads) "jobs")
  backups ← each (normalize_backup rt p server source) (items (get "backups" payloads) "backups")
  let clients = normalize_clients rt server source (items (get "clients" payloads) "clients")
  let (policies, workflows) = normalize_policies rt server (get "policies" payloads)
  some (
      assemble rt p payloads server source (classify_all rt source jobs)
        (classify_all rt source clients) (classify_all rt source policies)
        (classify_all rt source workflows) (classify_all rt source backups))
