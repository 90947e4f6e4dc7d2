-- ===== src/Lookup/Tests.antt =====
-- Runs of the lookup package, and its theorems at concrete inputs.
use integrated_backup_monito.Prelude.{
  String, ◌≡◌, refl, true, false, none, some, [], ◌∷◌, map, string_eq, nat_eq, pair_eq, triple_eq,
  option_eq,
}
use integrated_backup_monito.Prelude.Int.{pos}
use integrated_backup_monito.Prelude.Text.{
  strip, drop_while, drop_while_end, is_space, join, replace_char,
}
use integrated_backup_monito.Prelude.Dict.{
  lookup, values, add, add_if, update, several, sorted_set, insert_sorted,
}
use integrated_backup_monito.Value.{
  aware, str, datetime, Runtime, field, end, get, find, truthy, utc_instant,
}
use integrated_backup_monito.Lookup.Models.{
  Name, Evidence, Candidate, Coverage, candidate, complete_for, in_order, is_finite, iso, to_float,
  digest, api_timestamp, timestamp,
}
use integrated_backup_monito.Lookup.Jobs.{
  Job, JobKey, Jobs, before, execution_check, select_job, check_saves, check_workflow, chosen,
  copies_conflicts, has_invalid_status, has_invalid_times, is_terminal, later_than, latest,
  observed_lt, pool, refers_to, validate_save, workflow_conflicts,
}
use integrated_backup_monito.Lookup.Builder.{Builder, empty_builder}
use integrated_backup_monito.Lookup.Document.{
  Request, public_names, mapping_of, distinct, records_of, verification_of, assess, check_times,
  action_of, audit_of, candidate_items, check_time, early_pending, execution_of, has_raw_reference,
  insert_candidate, insert_reference, is_complete, last_observed, late_pending, run_key,
  sort_candidates, sorted_references, state_of, document,
}
use integrated_backup_monito.Lookup.Document.Publish.{IsCertified, document-publishes}

-- A runtime whose parsers accept nothing.
abbrev plain : Runtime
plain = record {
  repr = λ v. "";
  from_isoformat = λ s. none;
  isoformat = λ d. "2026-01-01T00:00:00+00:00";
  parse_float = λ s. none;
  float_of_int = λ n. none;
  thousandth = λ x. x;
  abs_ge = λ x n. false;
  from_timestamp = λ x. none;
  sha256_json = λ v. "digest";
  sha256_text = λ s. "digest";
  strftime = λ pattern t. "2026-01";
}

abbrev action_job : Job
action_job = record {
  source = "core";
  identity = "7";
  kind = "backup action job";
  parent = some "5";
  root = some "5";
  status = "success";
  start = some 100000000000;
  stop = some 200000000000;
  observed_at = some 300000000000;
  reference = end;
}

abbrev workflow_job : Job
workflow_job = record action_job {
  identity = "5";
  kind = "workflow job";
  parent = none;
  root = none;
  start = some 90000000000;
  stop = some 210000000000;
}

abbrev named : String → Name
named s = record { original = s; normalized = s; suffix = none }

abbrev backup : Evidence
backup = record {
  source = "core";
  action_id = "7";
  backup_id = some "b";
  policy = named "gold";
  workflow = named "nightly";
  group = named "hosts";
  attributes = [];
  reference = field "raw_document_id" (str "raw") end;
  observed_at = some 300000000000;
  save_time = datetime (aware 110000000000 (pos 0));
  completion_time = datetime (aware 120000000000 (pos 0));
}

abbrev key : JobKey
key = ("core", "7")

abbrev runs : Jobs
runs = (key, action_job ∷ []) ∷ (("core", "5"), workflow_job ∷ []) ∷ []

abbrev ledger : Builder
ledger = record empty_builder { evidence = (key, ("print", backup) ∷ []) ∷ []; jobs = runs }

abbrev attestation : Coverage
attestation = record {
  source = "core";
  action_id = "7";
  start = some (aware 90000000000 (pos 0));
  stop = some (aware 400000000000 (pos 0));
  jobs_complete = true;
  backups_complete = true;
  partial = false;
  query_window_gap = false;
  suffix_reviewed = true;
  proof_reference = "ticket";
}

abbrev request : Request
request = record { synced_at = aware 400000000000 (pos 0); generation = "g"; reference_limit = 20 }

-- Opens what the runs below compute with.
opened : Unit {0}
unfolding document public_names mapping_of distinct records_of values lookup add verification_of
    assess check_times add_if api_timestamp timestamp utc_instant before execution_check select_job
    action_of audit_of candidate_items check_time early_pending execution_of has_raw_reference
    insert_candidate insert_reference is_complete last_observed late_pending run_key sort_candidates
    sorted_references state_of check_saves check_workflow chosen copies_conflicts has_invalid_status
    has_invalid_times is_terminal later_than latest observed_lt pool refers_to validate_save
    workflow_conflicts complete_for digest in_order is_finite iso to_float insert_sorted several
    sorted_set update drop_while drop_while_end is_space join replace_char strip find get truthy
opened = tt

publishes_gold : (document plain ledger request key (some attestation)).policy_name ≡ some "gold"
unfolding opened
publishes_gold = refl

document-publishes_example :
    (c : Candidate) × (distinct (map candidate (records_of ledger key)) ≡ c ∷ [])
    × ((document plain ledger request key (some attestation)).policy_name ≡ some c.0)
    × ((document plain ledger request key (some attestation)).workflow_name ≡ some c.1)
    × ((document plain ledger request key (some attestation)).protection_group ≡ some c.2)
    × IsCertified plain ledger key 400000000000 (some attestation) (records_of ledger key)
document-publishes_example =
    document-publishes plain ledger request key (some attestation) "gold" publishes_gold
