-- ===== src/Lookup/Store/Tests.antt =====
-- Runs of the lookup store, and its theorems at concrete inputs.
use integrated_backup_monito.Prelude.{
  ℕ, String, ◌≡◌, ◌≢◌, ◌⊎◌, ◌≤◌, refl, false, none, some, [], ◌∷◌, string_eq,
}
use integrated_backup_monito.Prelude.Text.{
  strip, drop_while, drop_while_end, is_space, is_digit, lower, lower_char,
}
use integrated_backup_monito.Prelude.Dict.{Dict, lookup, insert, add}
use integrated_backup_monito.Value.{Runtime}
use integrated_backup_monito.Lookup.Models.{
  validate_source_networker, source_text, positive_id, is_positive_decimal,
}
use integrated_backup_monito.Lookup.Document.{
  LookupDocument, Execution, resolved, verified, blocked, run_key, distinct,
}
use integrated_backup_monito.Lookup.Store.{
  Store, Checkpoint, Commit, committed, empty_store, commit, check_batch, check_document,
  check_update, put_all, retain_all, retain, is_authorized, publishes_all, publishes_nothing,
  replaces_execution, replaces_candidates, loses_candidates, regresses, normalized_set, is_subset,
}
use integrated_backup_monito.Lookup.Store.Update.{over, batch_find}
use integrated_backup_monito.Lookup.Store.History.{
  here, next, Commits-keep_start, commit_keeps_terminal,
}
use integrated_backup_monito.Lookup.Store.Sound.{
  IsFaithful, Commits-IsFaithful, commit_all_or_nothing,
}

abbrev plain : Runtime
plain = record {
  repr = λ v. "";
  from_isoformat = λ s. none;
  isoformat = λ d. "";
  parse_float = λ s. none;
  float_of_int = λ n. none;
  thousandth = λ x. x;
  abs_ge = λ x n. false;
  from_timestamp = λ x. none;
  sha256_json = λ v. "";
  sha256_text = λ s. "";
  strftime = λ pattern t. "2026-01";
}

abbrev ran : Execution
ran = record {
  action_start_time = some "2026-01-01T00:00:00+00:00";
  action_end_time = some "2026-01-01T01:00:00+00:00";
  action_status = some "success";
  action_job_type = some "backup action job";
  action_workflow_run_key = some "core:5";
}

abbrev gold : LookupDocument
gold = record {
  action_run_key = "core:7";
  source_networker = "core";
  action_job_id = "7";
  execution = ran;
  policy_name = some "gold";
  workflow_name = some "nightly";
  protection_group = some "hosts";
  mapping_status = resolved;
  verification_status = verified;
  evidence_state = "verified";
  reason = "";
  candidate_count = 1;
  raw_candidate_count = 1;
  normalization_version = "trailing-ascii-numeric-v1";
  suffix_validation = "reviewed";
  lookup_generation = "g";
  candidate_fingerprint = "f";
  lookup_observed_at = none;
  lookup_synced_at = none;
  coverage_from = none;
  coverage_to = none;
  backup_reference_count = 0;
  backup_reference_truncated = false;
  backup_references = [];
  candidate_evidence = record {
    items = [];
    truncated = false;
    coverage_proof = "ticket";
    conflicting_execution = none;
  };
}

-- The same action, started at another time: its names are revoked.
abbrev revoked : LookupDocument
revoked = record gold {
  execution = record ran { action_start_time = some "2026-01-02T00:00:00+00:00" };
  policy_name = none;
  workflow_name = none;
  protection_group = none;
  verification_status = blocked;
}

abbrev checkpoint : Checkpoint
checkpoint = record { cursor = "c"; evidence_generation = "g" }

opened : Unit {0}
unfolding commit check_batch check_document check_update put_all retain_all retain is_authorized
    publishes_all publishes_nothing replaces_execution replaces_candidates loses_candidates
    regresses normalized_set is_subset lookup insert add validate_source_networker source_text
    positive_id is_positive_decimal is_digit strip drop_while drop_while_end is_space lower
    lower_char run_key distinct
opened = tt

abbrev first_batch : Dict String LookupDocument
first_batch = ("core:7", gold) ∷ []

abbrev second_batch : Dict String LookupDocument
second_batch = ("core:7", revoked) ∷ []

first : Store
first = (commit plain empty_store first_batch 0 checkpoint).0

second : Store
second = (commit plain first second_batch 1 checkpoint).0

first_commits : (commit plain empty_store first_batch 0 checkpoint).1 ≡ committed 1
unfolding opened
first_commits = refl

gold_is_stored : lookup "core:7" first.documents ≡ some gold
unfolding first opened
gold_is_stored = refl

-- The start time is kept, with the other one beside it.
revoked_is_stored : lookup "core:7" second.documents ≡ some (retain gold revoked)
unfolding first second opened
revoked_is_stored = refl

stale_is_refused : (commit plain first second_batch 0 checkpoint).1 ≡ Commit.version_conflict
unfolding first opened
stale_is_refused = refl

Commits-keep_start_example :
    (new : LookupDocument) × (lookup "core:7" second.documents ≡ some new)
    × (new.execution.action_start_time ≡ some "2026-01-01T00:00:00+00:00")
    × (1 ≤ new.candidate_count)
unfolding second
Commits-keep_start_example =
    Commits-keep_start plain "core:7" first second gold "2026-01-01T00:00:00+00:00"
      (next second_batch 1 checkpoint here) gold_is_stored refl refl

commit_keeps_terminal_example :
    (new : LookupDocument) × (lookup "core:7"
        (commit plain first second_batch 1 checkpoint).0.documents
      ≡ some new)
    × (new.execution.action_status ≢ some "running")
commit_keeps_terminal_example =
    commit_keeps_terminal plain "core:7" first gold "success" second_batch 1 checkpoint
      gold_is_stored refl refl

Commits-IsFaithful_example : IsFaithful "core:7" gold
unfolding first
Commits-IsFaithful_example =
    Commits-IsFaithful plain first "core:7" gold (next first_batch 0 checkpoint here) gold_is_stored

commit_all_or_nothing_example :
    (((commit plain empty_store first_batch 0 checkpoint).0 ≡ empty_store)
      × ((commit plain empty_store first_batch 0 checkpoint).1 ≢ committed 1))
    ⊎ ((◌≡◌ {A = ℕ} 0 0)
        × ((commit plain empty_store first_batch 0 checkpoint).1 ≡ committed 1)
        × ((commit plain empty_store first_batch 0 checkpoint).0.version ≡ 1)
        × ((commit plain empty_store first_batch 0 checkpoint).0.checkpoint ≡ some checkpoint)
        × (lookup "core:7" (commit plain empty_store first_batch 0 checkpoint).0.documents
            ≡ over
                (lookup "core:7" empty_store.documents)
                (batch_find "core:7" first_batch)
                (lookup "core:7" empty_store.documents)))
commit_all_or_nothing_example =
    commit_all_or_nothing plain empty_store first_batch 0 checkpoint "core:7"
