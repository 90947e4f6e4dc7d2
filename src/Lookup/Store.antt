-- ===== src/Lookup/Store.antt =====
-- apps/lookups/networker_action/adapters.py, `InMemoryLookupStore`.
pub mod Update
pub mod History
pub mod Sound
mod Tests
use integrated_backup_monito.Prelude.{
  ℕ, suc, String, ◌<>◌, Bool, true, false, ◌&&◌, ◌||◌, not, Option, none, some, List, [], ◌∷◌, ◌==◌,
  map, string_eq, nat_eq, option_eq, triple_eq, contains, ltb, if◌then◌else◌, any, all, length,
}
use integrated_backup_monito.Prelude.Text.{is_empty}
use integrated_backup_monito.Prelude.Dict.{Dict, lookup, insert}
use integrated_backup_monito.Value.{Runtime, str}
use integrated_backup_monito.Lookup.Result.{Result, ok, value_error}
use integrated_backup_monito.Lookup.Models.{Candidate, positive_id, validate_source_networker}
use integrated_backup_monito.Lookup.Jobs.{is_missing, terminal}
use integrated_backup_monito.Lookup.Document.{
  Mapping, resolved, Verification, verified, blocked, Execution, CandidateEvidence, LookupDocument,
  Audit, run_key, distinct,
}

pub record Checkpoint : Type 0 where
  pub cursor : String
  pub evidence_generation : String

pub record Store : Type 0 where
  pub version : ℕ
  pub documents : Dict String LookupDocument
  pub checkpoint : Option Checkpoint

-- `InMemoryLookupStore.__init__`
abbrev pub empty_store : Store
empty_store = record { version = 0; documents = []; checkpoint = none }

-- `raise VersionConflict(...)`, `raise ValueError(...)`, or the new version.
pub data Commit : Type 0 where
  version_conflict : Commit
  refused : String → Commit
  committed : ℕ → Commit

-- A check of the first loop: the message of the `ValueError`, if it fails.
abbrev pub Check : Type 0
Check = Option String

abbrev pub require : Bool → String → Check → Check
require true message rest = rest
require false message rest = some message

abbrev source_check : Result String → Check → Check
source_check (ok source) rest = rest
source_check (value_error message) rest = some message

abbrev pub is_resolved : Mapping → Bool
is_resolved resolved = true
is_resolved _ = false

abbrev pub is_verified : Verification → Bool
is_verified verified = true
is_verified _ = false

abbrev pub is_blocked : Verification → Bool
is_blocked blocked = true
is_blocked _ = false

-- `isinstance(v, str) and v`
abbrev pub is_named : Option String → Bool
is_named none = false
is_named (some s) = not (is_empty s)

unfoldable pub is_authorized : LookupDocument → Bool
is_authorized d = is_resolved d.mapping_status && is_verified d.verification_status

unfoldable pub publishes_nothing : LookupDocument → Bool
publishes_nothing d =
    is_missing d.policy_name && is_missing d.workflow_name && is_missing d.protection_group

unfoldable pub publishes_all : LookupDocument → Bool
publishes_all d =
    d.candidate_count == 1
    && is_named d.policy_name
    && is_named d.workflow_name
    && is_named d.protection_group

-- What is required of a document by itself.
unfoldable pub check_document : Runtime → String → LookupDocument → Check → Check
check_document rt key d rest =
    source_check (validate_source_networker rt (str d.source_networker)) (
      require (key == d.action_run_key && not (is_missing (positive_id (str d.action_job_id))))
        "invalid_lookup_document_identity"
        (require (key == run_key (d.source_networker, d.action_job_id)) "lookup_key_mismatch" (
          if is_authorized d
          then require (publishes_all d) "invalid_verified_relationship" rest
          else require (publishes_nothing d) "unverified_public_relationship" rest)))

-- `{tuple(item["normalized"]) for item in ...}`
unfoldable pub normalized_set : LookupDocument → List Candidate
normalized_set d = distinct (map (λ (a : Audit). a.normalized) d.candidate_evidence.items)

unfoldable pub is_subset : List Candidate → List Candidate → Bool
is_subset cs ds = all (λ c. contains c ds) cs

-- `old["candidate_count"] and the fingerprints differ`, and the old candidates are not all there.
unfoldable pub loses_candidates : LookupDocument → LookupDocument → Bool
unfolding normalized_set is_subset
loses_candidates old d =
    not (old.candidate_count == 0)
    && not (old.candidate_fingerprint == d.candidate_fingerprint)
    && (not (length (normalized_set old) == old.candidate_count)
        || not (is_subset (normalized_set old) (normalized_set d)))

unfoldable pub replaces_candidates : LookupDocument → LookupDocument → Bool
replaces_candidates old d =
    ltb d.candidate_count old.candidate_count
    || (old.candidate_count == d.candidate_count
        && not (old.candidate_fingerprint == d.candidate_fingerprint))

abbrev is_present : Option String → Bool
is_present none = false
is_present (some s) = not (is_empty s)

unfoldable pub replaces_execution : LookupDocument → LookupDocument → Bool
replaces_execution old d =
    is_present old.execution.action_start_time
    && not (d.execution.action_start_time == old.execution.action_start_time)
    && not (is_blocked d.verification_status)

abbrev status_in : Option String → List String → Bool
status_in none statuses = false
status_in (some s) statuses = contains s statuses

unfoldable pub regresses : LookupDocument → LookupDocument → Bool
regresses old d =
    status_in old.execution.action_status terminal
    && status_in d.execution.action_status ("running" ∷ [])
    && not (is_blocked d.verification_status)

-- What is required of a document against the one that it replaces.
unfoldable pub check_update : Option LookupDocument → LookupDocument → Check → Check
check_update none d rest = rest
check_update (some old) d rest =
    require (not (replaces_execution old d)) "execution_replacement_requires_review" (
      require (not (replaces_candidates old d)) "incomplete_or_replaced_candidate_ledger" (
        require (not (loses_candidates old d)) "incomplete_or_replaced_candidate_ledger"
          (require (not (regresses old d)) "terminal_state_regression" rest)))

-- The first loop of `commit`.
unfoldable pub check_batch :
    Runtime → Dict String LookupDocument → Dict String LookupDocument → Check
check_batch rt stored [] = none
check_batch rt stored ((key, d) ∷ rest) =
    check_document rt key d (check_update (lookup key stored) d (check_batch rt stored rest))

-- `replacement.update(documents)`
unfoldable pub put_all :
    Dict String LookupDocument → Dict String LookupDocument → Dict String LookupDocument
put_all stored [] = stored
put_all stored ((key, d) ∷ rest) = put_all (insert key d stored) rest

-- The last loop: a blocked document keeps the execution of the one that it replaces, and holds its
-- own aside.
unfoldable pub retain : LookupDocument → LookupDocument → LookupDocument
retain old d = record d {
  execution = old.execution;
  candidate_evidence = record {
    items = d.candidate_evidence.items;
    truncated = d.candidate_evidence.truncated;
    coverage_proof = d.candidate_evidence.coverage_proof;
    conflicting_execution = some d.execution;
  };
}

abbrev pub settle : Option LookupDocument → LookupDocument → LookupDocument
settle none d = d
settle (some old) d = if is_blocked d.verification_status then retain old d else d

unfoldable pub retain_all :
    Dict String LookupDocument
    → Dict String LookupDocument
    → Dict String LookupDocument
    → Dict String LookupDocument
unfolding retain
retain_all stored [] replacement = replacement
retain_all stored ((key, d) ∷ rest) replacement =
    retain_all stored rest (insert key (settle (lookup key stored) d) replacement)

abbrev apply : Store → Dict String LookupDocument → Checkpoint → Check → Store × Commit
apply store batch checkpoint (some message) = (store, refused message)
apply store batch checkpoint none = (
  record {
    version = suc store.version;
    documents = retain_all store.documents batch (put_all store.documents batch);
    checkpoint = some checkpoint;
  },
  committed (suc store.version),
)

-- `commit`: the store that it leaves, and how it ends.
unfoldable pub commit :
    Runtime → Store → Dict String LookupDocument → ℕ → Checkpoint → Store × Commit
commit rt store batch expected_version checkpoint =
    if expected_version == store.version
    then apply store batch checkpoint (check_batch rt store.documents batch)
    else (store, version_conflict)
