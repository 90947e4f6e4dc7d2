-- ===== src/Lookup/Document.antt =====
-- apps/lookups/networker_action/aggregate.py, the documents: `ActionLookupBuilder.build` and
-- `_document`.
pub mod Publish
use integrated_backup_monito.Prelude.{
  ℕ, ◌≤◌, String, ◌<>◌, Bool, true, false, ◌&&◌, ◌||◌, not, Option, none, some, List, [], ◌∷◌, ◌++◌,
  ◌==◌, map, string_eq, nat_eq, option_eq, pair_eq, triple_eq, contains, ltb, leb, if◌then◌else◌,
  any, keep, length, take,
}
use integrated_backup_monito.Prelude.Text.{strip, join, is_empty, str_lt}
use integrated_backup_monito.Prelude.Dict.{
  Dict, lookup, insert, or_default, values, keys, add, add_if, update, sorted_set,
}
use integrated_backup_monito.Value.{
  Datetime, naive, aware, Value, null, str, arr, obj, Items, Fields, Runtime, get, truthy, nil,
  cons, utc_instant,
}
use integrated_backup_monito.Lookup.Result.{Result, ok, value_error, raise_if, ◌>>=◌, ◌>>◌}
use integrated_backup_monito.Lookup.Models.{
  Name, Evidence, Candidate, Coverage, candidate, original_candidate, complete_for, api_timestamp,
  digest, iso, positive_id, validate_source_networker,
}
use integrated_backup_monito.Lookup.Jobs.{
  Job, JobKey, Jobs, Checked, action_type, before, execution_check, is_missing,
}
use integrated_backup_monito.Lookup.Builder.{Builder, candidate_value}

pub data Mapping : Type 0 where
  ambiguous resolved invalid unresolved : Mapping

pub data Verification : Type 0 where
  blocked provisional verified unverified : Verification

-- One entry of `candidate_evidence["items"]`.
pub record Audit : Type 0 where
  pub original : Candidate
  pub normalized : Candidate
  pub policy_suffix : Option String
  pub workflow_suffix : Option String
  pub attributes : List Value
  pub reference : Fields

-- The times and states of an execution, which `commit` keeps aside where a conflict is found.
pub record Execution : Type 0 where
  pub action_start_time : Option String
  pub action_end_time : Option String
  pub action_status : Option String
  pub action_job_type : Option String
  pub action_workflow_run_key : Option String

pub record CandidateEvidence : Type 0 where
  pub items : List Audit
  pub truncated : Bool
  pub coverage_proof : String
  pub conflicting_execution : Option Execution

-- A document of the lookup index.
pub record LookupDocument : Type 0 where
  pub action_run_key : String
  pub source_networker : String
  pub action_job_id : String
  pub execution : Execution
  pub policy_name : Option String
  pub workflow_name : Option String
  pub protection_group : Option String
  pub mapping_status : Mapping
  pub verification_status : Verification
  pub evidence_state : String
  pub reason : String
  pub candidate_count : ℕ
  pub raw_candidate_count : ℕ
  pub normalization_version : String
  pub suffix_validation : String
  pub lookup_generation : String
  pub candidate_fingerprint : String
  pub lookup_observed_at : Option String
  pub lookup_synced_at : Option String
  pub coverage_from : Option String
  pub coverage_to : Option String
  pub backup_reference_count : ℕ
  pub backup_reference_truncated : Bool
  pub backup_references : List Fields
  pub candidate_evidence : CandidateEvidence

abbrev pub is_empty_list {ℓ} : {A : Type ℓ} → List A → Bool
is_empty_list [] = true
is_empty_list (x ∷ xs) = false

-- The members of `{f(e) for e in records}`, each once.
unfoldable pub distinct : List Candidate → List Candidate
distinct [] = []
distinct (c ∷ cs) = add c (distinct cs)

-- `coverage is None or not coverage.suffix_reviewed`, and the like.
abbrev covered : (Coverage → Bool) → Option Coverage → Bool
covered test none = false
covered test (some c) = test c

abbrev start_of : Option Job → Option ℕ
start_of none = none
start_of (some action) = action.start

abbrev stop_of : Option Job → Option ℕ
stop_of none = none
stop_of (some action) = action.stop

abbrev observed_of : Option Job → Option ℕ
observed_of none = none
observed_of (some action) = action.observed_at

-- `e.reference.get("raw_document_id") or (e.reference.get("index") and e.reference.get("id"))`
unfoldable pub has_raw_reference : Evidence → Bool
has_raw_reference e =
    truthy (get "raw_document_id" e.reference)
    || (truthy (get "index" e.reference) && truthy (get "id" e.reference))

unfoldable pub is_complete : Option Coverage → Option ℕ → Option ℕ → Bool
is_complete coverage start stop = covered (λ c. complete_for c start stop) coverage

-- The pending reasons up to the loop over the records.
unfoldable pub early_pending :
    Builder → JobKey → Option Coverage → List Evidence → List String → List String
unfolding has_raw_reference
early_pending b key coverage records pending =
    add_if (not (covered (λ c. c.suffix_reviewed) coverage)) "suffix_rule_unreviewed" (
      add_if (any (λ e. not (has_raw_reference e)) records) "missing_raw_reference" (
        add_if (any (λ e. is_missing e.observed_at) records) "missing_observation_time" (
          add_if (covered (λ c. c.query_window_gap) coverage) "query_window_gap" (
            add_if (contains key.0 b.incomplete_sources || covered (λ c. c.partial) coverage)
              "partial_collection"
              (add_if b.unknown_source_errors "unattributed_input_errors" pending)))))

-- The loop over the records: their times against those of the action.
abbrev conflicts_in_time : Option ℕ → Option ℕ → Option ℕ → Option ℕ → Bool
conflicts_in_time start stop saved completed =
    before completed saved || before saved start || before stop completed

unfoldable pub check_time : Runtime → Option ℕ → Option ℕ → Evidence → Checked → Checked
check_time rt start stop e (blocking, pending) =
    let saved = api_timestamp rt e.save_time in
    let completed = api_timestamp rt e.completion_time in
    let unconfirmed = is_missing saved || is_missing completed in
    (
      add_if (not unconfirmed && conflicts_in_time start stop saved completed)
          "backup_execution_time_conflict" blocking,
      add_if unconfirmed "backup_time_unconfirmed" pending,
    )

unfoldable pub check_times : Runtime → Option ℕ → Option ℕ → List Evidence → Checked → Checked
unfolding check_time
check_times rt start stop [] checked = checked
check_times rt start stop (e ∷ es) checked =
    check_times rt start stop es (check_time rt start stop e checked)

abbrev is_after : ℕ → Option ℕ → Bool
is_after synced none = false
is_after synced (some observed) = ltb synced observed

-- The pending reasons after the loop.
unfoldable pub late_pending :
    ℕ → Option Coverage → List Evidence → Option Job → List String → List String
unfolding is_complete
late_pending synced coverage records action pending =
    let complete = is_complete coverage (start_of action) (stop_of action) in
    add_if (is_empty_list records)
      (if complete then "no_backup_in_covered_window" else "awaiting_backups")
      (add_if (not complete) "coverage_unverified" (
        add_if (is_after synced (observed_of action)) "future_observation_time" (
          add_if (any (λ e. is_after synced e.observed_at) records) "future_observation_time"
            pending)))

-- All reasons about an action: those that block, and those that are pending.
abbrev finish :
    Runtime
    → Builder
    → JobKey
    → ℕ
    → Option Coverage
    → List Evidence
    → Option Job × List String × List String
    → Checked
finish rt b key synced coverage records (action, blocking, pending) =
    let timed : Checked = check_times rt (start_of action) (stop_of action) records (
      update blocking (or_default [] (lookup key b.blocked)),
      early_pending b key coverage records pending,
    ) in
    (timed.0, late_pending synced coverage records action timed.1)

unfoldable pub assess : Runtime → Builder → JobKey → ℕ → Option Coverage → List Evidence → Checked
assess rt b key synced coverage records =
    finish rt b key synced coverage records (execution_check key b.jobs)

unfoldable pub mapping_of : List Candidate → List String → Mapping
mapping_of [] [] = unresolved
mapping_of [] (r ∷ rs) = invalid
mapping_of (c ∷ []) blocking = resolved
mapping_of (c ∷ d ∷ cs) blocking = ambiguous

unfoldable pub verification_of : Mapping → Checked → Verification
verification_of mapping (r ∷ rs, pending) = blocked
verification_of mapping ([], p ∷ ps) = provisional
verification_of resolved ([], []) = verified
verification_of _ ([], []) = unverified

-- The names that are published: those of the one candidate, if it is verified.
unfoldable pub public_names : Mapping → Verification → List Candidate → Option Candidate
public_names resolved verified (c ∷ cs) = some c
public_names _ _ _ = none

abbrev priority : List String
priority =
    "job_id_reuse_or_execution_conflict" ∷ "target_type_mismatch" ∷ "backup_revision_conflict"
    ∷ "invalid_backup_evidence" ∷ "missing_action_job" ∷ "partial_collection" ∷ "query_window_gap"
    ∷ "awaiting_backups" ∷ "no_backup_in_covered_window" ∷ []

abbrev fallback_state : Mapping → List String → String
fallback_state ambiguous reasons = "ambiguous"
fallback_state _ [] = "verified"
fallback_state _ (r ∷ rs) = r

unfoldable pub state_of : List String → Mapping → List String → String
state_of [] mapping reasons = fallback_state mapping reasons
state_of (p ∷ ps) mapping reasons = if contains p reasons then p else state_of ps mapping reasons

-- The greatest of the instants that are there.
abbrev max_instant : Option ℕ → Option ℕ → Option ℕ
max_instant none b = b
max_instant (some a) none = some a
max_instant (some a) (some b) = some (if ltb a b then b else a)

unfoldable pub last_observed : List Evidence → Option ℕ → Option ℕ
last_observed [] t = t
last_observed (e ∷ es) t = max_instant e.observed_at (last_observed es t)

-- `sorted(references, key=digest)`, which keeps the order of equal digests.
unfoldable pub insert_reference : Runtime → Fields → List Fields → List Fields
insert_reference rt r [] = r ∷ []
insert_reference rt r (s ∷ ss) =
    let further = s ∷ insert_reference rt r ss in
    if str_lt (digest rt (obj s)) (digest rt (obj r)) then further else r ∷ s ∷ ss

unfoldable pub sorted_references : Runtime → List Evidence → List Fields
unfolding insert_reference
sorted_references rt [] = []
sorted_references rt (e ∷ es) = insert_reference rt e.reference (sorted_references rt es)

-- `sorted(candidates)`: by policy, workflow and group.
abbrev candidate_lt : Candidate → Candidate → Bool
candidate_lt (p, w, g) (q, x, h) = str_lt p q || (p == q && (str_lt w x || (w == x && str_lt g h)))

unfoldable pub insert_candidate : Candidate → List Candidate → List Candidate
insert_candidate c [] = c ∷ []
insert_candidate c (d ∷ ds) =
    let further = d ∷ insert_candidate c ds in if candidate_lt d c then further else c ∷ d ∷ ds

unfoldable pub sort_candidates : List Candidate → List Candidate
unfolding insert_candidate
sort_candidates [] = []
sort_candidates (c ∷ cs) = insert_candidate c (sort_candidates cs)

unfoldable pub candidate_items : List Candidate → Items
candidate_items [] = nil
candidate_items (c ∷ cs) = cons (candidate_value c) (candidate_items cs)

unfoldable pub audit_of : Evidence → Audit
audit_of e = record {
  original = original_candidate e;
  normalized = candidate e;
  policy_suffix = e.policy.suffix;
  workflow_suffix = e.workflow.suffix;
  attributes = e.attributes;
  reference = e.reference;
}

-- `f"{source}:{identity}"`
unfoldable pub run_key : JobKey → String
run_key key = key.0 <> (":" <> key.1)

abbrev root_key : String → Option String → Option String
root_key source none = none
root_key source (some root) = some (run_key (source, root))

unfoldable pub execution_of : Runtime → String → Option Job → Execution
execution_of rt source action = record {
  action_start_time = iso rt (start_of action);
  action_end_time = iso rt (stop_of action);
  action_status = elim action [ none ↦ none | some a ↦ some a.status ];
  action_job_type = elim action [ none ↦ none | some a ↦ some a.kind ];
  action_workflow_run_key = elim action [ none ↦ none | some a ↦ root_key source a.root ];
}

abbrev bound : Runtime → Option Datetime → Option String
bound rt none = none
bound rt (some d) = some (rt.isoformat d)

abbrev normalization_version_text : String
normalization_version_text = "trailing-ascii-numeric-v1"

-- What `build` is given beside the ledger.
pub record Request : Type 0 where
  pub synced_at : Datetime
  pub generation : String
  pub reference_limit : ℕ

abbrev instant_of : Datetime → ℕ
instant_of (naive t) = t
instant_of (aware t z) = t

-- The evidence of a key, in the order in which it was found.
unfoldable pub records_of : Builder → JobKey → List Evidence
records_of b key = values (or_default [] (lookup key b.evidence))

unfoldable pub action_of : Builder → JobKey → Option Job
action_of b key = (execution_check key b.jobs).0

-- `_document`
unfoldable pub document : Runtime → Builder → Request → JobKey → Option Coverage → LookupDocument
document rt b request key coverage =
    let records = records_of b key in
    let candidates = distinct (map candidate records) in
    let action = action_of b key in
    let checked = assess rt b key (instant_of request.synced_at) coverage records in
    let mapping = mapping_of candidates checked.0 in
    let verification = verification_of mapping checked in
    let public = public_names mapping verification candidates in
    let reasons = sorted_set (update checked.0 checked.1) in
    let references = sorted_references rt records in
    record {
      action_run_key = run_key key;
      source_networker = key.0;
      action_job_id = key.1;
      execution = execution_of rt key.0 action;
      policy_name = elim public [ none ↦ none | some c ↦ some c.0 ];
      workflow_name = elim public [ none ↦ none | some c ↦ some c.1 ];
      protection_group = elim public [ none ↦ none | some c ↦ some c.2 ];
      mapping_status = mapping;
      verification_status = verification;
      evidence_state = state_of priority mapping reasons;
      reason = join ";" reasons;
      candidate_count = length candidates;
      raw_candidate_count = length (distinct (map original_candidate records));
      normalization_version = normalization_version_text;
      suffix_validation =
          if covered (λ c. c.suffix_reviewed) coverage then "reviewed" else "unreviewed";
      lookup_generation = request.generation;
      candidate_fingerprint = digest rt (arr (candidate_items (sort_candidates candidates)));
      lookup_observed_at = iso rt (last_observed records (observed_of action));
      lookup_synced_at = some (rt.isoformat request.synced_at);
      coverage_from = elim coverage [ none ↦ none | some c ↦ bound rt c.start ];
      coverage_to = elim coverage [ none ↦ none | some c ↦ bound rt c.stop ];
      backup_reference_count = length references;
      backup_reference_truncated = ltb request.reference_limit (length references);
      backup_references = take request.reference_limit references;
      candidate_evidence = record {
        items = map audit_of (take request.reference_limit records);
        truncated = ltb request.reference_limit (length records);
        coverage_proof = elim coverage [ none ↦ "" | some c ↦ c.proof_reference ];
        conflicting_execution = none;
      };
    }

-- The attestations of `build`, by key.
abbrev attest :
    Dict JobKey Coverage → Coverage → String → Option String → Result (Dict JobKey Coverage)
attest found item source none = value_error "invalid_or_duplicate_coverage_key"
attest found item source (some identity) = elim (lookup (source, identity) found) [
  | some other ↦ value_error "invalid_or_duplicate_coverage_key"
  | none ↦ ok (insert (source, identity) item found)
]

unfoldable pub attestations :
    Runtime → List Coverage → Dict JobKey Coverage → Result (Dict JobKey Coverage)
attestations rt [] found = ok found
attestations rt (item ∷ rest) found = do
  source ← validate_source_networker rt (str item.source)
  found' ← attest found item source (positive_id (str item.action_id))
  attestations rt rest found'

-- The keys of `build`: those of evidence, of blocks and of actions, and the parents of saves.
unfoldable pub action_keys : Jobs → List JobKey
action_keys [] = []
action_keys ((key, copies) ∷ rest) =
    let others = action_keys rest in
    if any (λ j. j.kind == action_type) copies then key ∷ others else others

abbrev parent_key : Job → Option String → List JobKey
parent_key j none = []
parent_key j (some parent) = if j.kind == "save job" then (j.source, parent) ∷ [] else []

unfoldable pub parents : List Job → List JobKey
parents [] = []
parents (j ∷ js) = parent_key j j.parent ++ parents js

unfoldable pub parent_keys : List (List Job) → List JobKey
unfolding parents
parent_keys [] = []
parent_keys (copies ∷ rest) = parents copies ++ parent_keys rest

-- `sorted(keys)`, each once.
abbrev key_lt : JobKey → JobKey → Bool
key_lt k j = str_lt k.0 j.0 || (k.0 == j.0 && str_lt k.1 j.1)

unfoldable pub insert_key : JobKey → List JobKey → List JobKey
insert_key k [] = k ∷ []
insert_key k (j ∷ js) =
    let further = j ∷ insert_key k js in
    if k == j then j ∷ js else if key_lt k j then k ∷ j ∷ js else further

unfoldable pub sort_keys : List JobKey → List JobKey
unfolding insert_key
sort_keys [] = []
sort_keys (k ∷ ks) = insert_key k (sort_keys ks)

unfoldable pub all_keys : Builder → List JobKey
unfolding sort_keys
all_keys b =
    sort_keys
      (keys b.evidence ++ (keys b.blocked ++ (action_keys b.jobs ++ parent_keys (values b.jobs))))

unfoldable pub documents :
    Runtime → Builder → Request → Dict JobKey Coverage → List JobKey → Dict String LookupDocument
documents rt b request found [] = []
documents rt b request found (key ∷ rest) =
    (run_key key, document rt b request key (lookup key found)) ∷ documents rt b request found rest

-- `build`
unfoldable pub build :
    Runtime → Builder → Request → List Coverage → Result (Dict String LookupDocument)
build rt b request coverage = do
  raise_if (is_missing (utc_instant request.synced_at) || ltb request.reference_limit 1)
      "aware_synced_at_and_positive_reference_limit_required"
  found ← attestations rt coverage []
  ok (documents rt b request found (all_keys b))
