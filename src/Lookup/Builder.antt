-- ===== src/Lookup/Builder.antt =====
-- apps/lookups/networker_action/aggregate.py, the ledger: `ActionLookupBuilder.add_raw`, `add_jobs`.
use integrated_backup_monito.Prelude.{
  ℕ, String, ◌<>◌, Bool, true, false, ◌&&◌, Option, none, some, List, [], ◌∷◌, ◌++◌, ◌==◌,
  string_eq, nat_eq, option_eq, pair_eq, ltb, if◌then◌else◌, any,
}
use integrated_backup_monito.Prelude.Dict.{
  Dict, lookup, insert, or_default, add, update, sorted_set,
}
use integrated_backup_monito.Value.{
  Value, null, str, arr, obj, Items, Fields, Runtime, field, end, nil, cons, value_beq,
}
use integrated_backup_monito.Lookup.Result.{Result, ok, value_error}
use integrated_backup_monito.Lookup.Models.{Issue, Evidence, Candidate, original_candidate, digest}
use integrated_backup_monito.Lookup.Jobs.{Job, JobKey, Jobs, read_job, is_missing}
use integrated_backup_monito.Lookup.Extract.{Extraction, Collected, collect_attributes, extract_raw}

pub record Builder : Type 0 where
  pub evidence : Dict JobKey (Dict String Evidence)
  pub jobs : Jobs
  pub issues : List Issue
  pub incomplete_sources : List String
  pub unknown_source_errors : Bool
  pub blocked : Dict JobKey (List String)
  pub identities : Dict (String × String) (Dict String JobKey)

-- `ActionLookupBuilder.__init__`
abbrev pub empty_builder : Builder
empty_builder = record {
  evidence = [];
  jobs = [];
  issues = [];
  incomplete_sources = [];
  unknown_source_errors = false;
  blocked = [];
  identities = [];
}

-- `self.blocked[key].add(reason)`
unfoldable pub block : JobKey → String → Builder → Builder
block key reason b = record b {
  blocked = insert key (add reason (or_default [] (lookup key b.blocked))) b.blocked;
}

-- The loop over the issues of a document.
abbrev note_key : Option String → Option String → Builder → Builder
note_key none action_id b = record b { unknown_source_errors = true }
note_key (some source) none b = b
note_key (some source) (some action_id) b = block (source, action_id) "invalid_backup_evidence" b

unfoldable pub note_issues : List Issue → Builder → Builder
note_issues [] b = b
note_issues (issue ∷ rest) b = note_issues rest (note_key issue.source issue.action_id b)

-- The fingerprint of a backup: the digest of its identity, names, attributes and times.
abbrev pub or_none : Option String → Value
or_none none = null
or_none (some s) = str s

abbrev pub candidate_value : Candidate → Value
candidate_value (policy, workflow, group) =
    arr (cons (str policy) (cons (str workflow) (cons (str group) nil)))

text_items : List String → Items
text_items [] = nil
text_items (s ∷ ss) = cons (str s) (text_items ss)

sorted_attributes : Dict String (List String) → Fields
sorted_attributes [] = end
sorted_attributes ((name, values) ∷ rest) =
    field name (arr (text_items (sorted_set values))) (sorted_attributes rest)

unfoldable pub fingerprint : Runtime → Evidence → String
unfolding text_items sorted_attributes
fingerprint rt item =
    let collected : Collected = collect_attributes item.attributes ([], []) in
    digest rt (
      obj (
        field "id" (or_none item.backup_id) (
          field "action" (str item.action_id) (
            field "original" (candidate_value (original_candidate item)) (
              field "attributes" (obj (sorted_attributes collected.1)) (
                field "save_time" item.save_time
                  (field "completion_time" item.completion_time end)))))))

-- The loop over the fingerprints that are known of a backup identity.
unfoldable pub block_revisions : String → JobKey → Dict String JobKey → Builder → Builder
block_revisions print key [] b = b
block_revisions print key ((old_print, old_key) ∷ rest) b = block_revisions print key rest (
    if old_print == print
    then b
    else block key "backup_revision_conflict" (block old_key "backup_revision_conflict" b))

unfoldable pub identify : String → JobKey → String × String → Builder → Builder
unfolding block_revisions
identify print key identity b =
    let known = or_default [] (lookup identity b.identities) in
    let b' = block_revisions print key known b in
    record b' { identities = insert identity (insert print key known) b'.identities }

-- An evidence replaces one with its fingerprint only if it was observed later.
unfoldable pub is_newer : Option ℕ → Option ℕ → Bool
is_newer none old = false
is_newer (some t) none = true
is_newer (some t) (some u) = ltb u t

abbrev replaces : Evidence → Option Evidence → Bool
replaces item none = true
replaces item (some previous) = is_newer item.observed_at previous.observed_at

unfoldable pub keep_newest : String → JobKey → Evidence → Builder → Builder
unfolding is_newer
keep_newest print key item b =
    let known = or_default [] (lookup key b.evidence) in
    if replaces item (lookup print known)
    then record b { evidence = insert key (insert print item known) b.evidence }
    else b

abbrev place : Runtime → Evidence → JobKey → String → Option String → Builder → Builder
place rt item key print (some backup_id) b =
    keep_newest print key item (identify print key (item.source, backup_id) b)
place rt item key print none b =
    keep_newest (print <> digest rt (obj item.reference)) key item
      (block key "backup_identity_missing" b)

unfoldable pub add_evidence : Runtime → Evidence → Builder → Builder
add_evidence rt item b =
    place rt item (item.source, item.action_id) (fingerprint rt item) item.backup_id b

unfoldable pub add_all_evidence : Runtime → List Evidence → Builder → Builder
add_all_evidence rt [] b = b
add_all_evidence rt (item ∷ rest) b = add_all_evidence rt rest (add_evidence rt item b)

unfoldable pub add_extraction : Runtime → Extraction → Builder → Builder
add_extraction rt extraction b = add_all_evidence rt extraction.evidence (
    note_issues extraction.issues (record b {
      issues = b.issues ++ extraction.issues;
      incomplete_sources = update b.incomplete_sources extraction.incomplete_sources;
    }))

-- `add_raw`
unfoldable pub add_raw : Runtime → List Value → Builder → Builder
add_raw rt [] b = b
add_raw rt (hit ∷ hits) b = add_raw rt hits (add_extraction rt (extract_raw rt hit) b)

-- `==` of two jobs, field by field.
unfoldable pub job_beq : Job → Job → Bool
job_beq a b =
    a.source == b.source
    && a.identity == b.identity
    && a.kind == b.kind
    && a.parent == b.parent
    && a.root == b.root
    && a.status == b.status
    && a.start == b.start
    && a.stop == b.stop
    && a.observed_at == b.observed_at
    && value_beq (obj a.reference) (obj b.reference)

unfoldable pub issue_at : String → String → Fields → Issue
issue_at reason source reference = record {
  reason = reason;
  source = some source;
  action_id = none;
  reference = reference;
  details = null;
}

unfoldable pub store_job : Job → Builder → Builder
unfolding job_beq
store_job job b =
    let key : JobKey = (job.source, job.identity) in
    let known = or_default [] (lookup key b.jobs) in
    if any (job_beq job) known then b else record b { jobs = insert key (known ++ job ∷ []) b.jobs }

unfoldable pub note_parent : Job → Builder → Builder
unfolding issue_at
note_parent job b =
    if job.kind == "save job" && is_missing job.parent
    then record b {
      issues = b.issues ++ issue_at "invalid_save_parent" job.source job.reference ∷ [];
    }
    else b

abbrev add_read : Value → Result Job → Builder → Builder
add_read hit (value_error reason) b = record b {
  issues =
      b.issues
      ++ record { reason = reason; source = none; action_id = none; reference = end; details = hit }
        ∷ [];
  unknown_source_errors = true;
}
add_read hit (ok job) b = note_parent job (store_job job b)

-- `add_jobs`
unfoldable pub add_jobs : Runtime → List Value → Builder → Builder
add_jobs rt [] b = b
add_jobs rt (hit ∷ hits) b = add_jobs rt hits (add_read hit (read_job rt hit) b)
