-- ===== src/Lookup/Jobs.antt =====
-- apps/lookups/networker_action/validate.py
pub mod Choice
use integrated_backup_monito.Prelude.{
  ℕ, ◌+◌, String, Bool, true, false, ◌&&◌, ◌||◌, not, Option, none, some, List, [], ◌∷◌, ◌==◌,
  string_eq, nat_eq, option_eq, pair_eq, contains, ltb, if◌then◌else◌, any, keep, map,
}
use integrated_backup_monito.Prelude.Text.{strip, lower, str_lt}
use integrated_backup_monito.Value.{Value, str, obj, Fields, Runtime, get}
use integrated_backup_monito.Lookup.Result.{Result, ok, value_error, raise_if, ◌>>=◌, ◌>>◌}
use integrated_backup_monito.Lookup.Models.{positive_id, timestamp, source_of, unwrap}
use integrated_backup_monito.Prelude.Dict.{
  Dict, lookup, or_default, values, add_if, update, several,
}

abbrev pub action_type : String
action_type = "backup action job"

abbrev pub terminal : List String
terminal = "success" ∷ "failed" ∷ "canceled" ∷ []

pub record Job : Type 0 where
  pub source : String
  pub identity : String
  pub kind : String
  pub parent : Option String
  pub root : Option String
  pub status : String
  pub start : Option ℕ
  pub stop : Option ℕ
  pub observed_at : Option ℕ
  pub reference : Fields

abbrev is_job_run : Value → Bool
is_job_run (str s) = s == "job-run"
is_job_run _ = false

abbrev payload_of : Fields → Value → Result Fields
payload_of document (obj payload) =
    if is_job_run (get "document_type" document) then ok payload else value_error "not_a_job_run"
payload_of document _ = value_error "not_a_job_run"

abbrev or_invalid : Option String → Result String
or_invalid none = value_error "invalid_job_id"
or_invalid (some identity) = ok identity

abbrev kind_and_status : Value → Value → Result (String × String)
kind_and_status (str kind) (str status) = ok (kind, status)
kind_and_status _ _ = value_error "invalid_job_type_or_status"

-- `read_job`
unfoldable pub read_job : Runtime → Value → Result Job
read_job rt hit = do
  (document, reference) ← unwrap hit
  source ← source_of rt false document
  payload ← payload_of document (get "payload" document)
  identity ← or_invalid (positive_id (get "job_id" payload))
  (kind, status) ← kind_and_status (get "type" payload) (get "status_normalized" payload)
  ok (record {
    source = source;
    identity = identity;
    kind = lower (strip kind);
    parent = positive_id (get "parent_job_id" payload);
    root = positive_id (get "root_parent_job_id" payload);
    status = lower (strip status);
    start = timestamp rt (get "start_time" payload);
    stop = timestamp rt (get "end_time" payload);
    observed_at = timestamp rt (get "observed_at" document);
    reference = reference;
  })

-- `a and b and a < b`
unfoldable pub before : Option ℕ → Option ℕ → Bool
before (some a) (some b) = ltb a b
before _ _ = false

abbrev pub is_missing {ℓ} : {A : Type ℓ} → Option A → Bool
is_missing none = true
is_missing (some a) = false

unfoldable pub is_terminal : Job → Bool
is_terminal j = contains j.status terminal

-- The order of the keys `(observed_at.isoformat() or "", status)`. The texts of instants of UTC sort
-- as the instants, a text without microseconds before one with them, and the empty text is the least.
unfoldable pub observed_lt : Option ℕ → Option ℕ → Bool
observed_lt none none = false
observed_lt none (some b) = true
observed_lt (some a) none = false
observed_lt (some a) (some b) = ltb a b

unfoldable pub later_than : Job → Job → Bool
unfolding observed_lt
later_than best j =
    observed_lt best.observed_at j.observed_at
    || (best.observed_at == j.observed_at && str_lt best.status j.status)

-- `max`: the first of the greatest.
unfoldable pub latest : Job → List Job → Job
latest best [] = best
latest best (j ∷ js) = latest (if later_than best j then j else best) js

-- `terminal or jobs`
unfoldable pub pool : Job → List Job → List Job → Job
pool j js [] = latest j js
pool j js (t ∷ ts) = latest t ts

unfoldable pub chosen : Job → List Job → Job
unfolding pool
chosen j js = pool j js (keep is_terminal (j ∷ js))

unfoldable pub has_invalid_status : Job → Bool
has_invalid_status j = not (contains j.status ("running" ∷ "unknown" ∷ terminal))

abbrev pub outcome : Job → String × Option ℕ
outcome j = (j.status, j.stop)

abbrev pub hierarchy : Job → Option String × Option String
hierarchy j = (j.parent, j.root)

unfoldable pub copies_conflicts : List Job → List String
copies_conflicts jobs =
    add_if (several (map outcome (keep is_terminal jobs))) "terminal_state_conflict" (
      add_if (several (map hierarchy jobs)) "job_hierarchy_conflict" (
        add_if (several (map (λ j. j.start) jobs) || several (map (λ j. j.kind) jobs))
          "job_id_reuse_or_execution_conflict" []))

unfoldable pub has_invalid_times : Job → Bool
unfolding has_invalid_status before
has_invalid_times j =
    is_missing j.start
    || is_missing j.observed_at
    || has_invalid_status j
    || (not (is_missing j.stop) && (is_missing j.start || before j.stop j.start))
    || (is_terminal j && is_missing j.stop)
    || before j.observed_at j.stop
    || before j.observed_at j.start

-- `select_job`
unfoldable pub select_job : List Job → Option Job × List String
select_job [] = (none, "missing_action_job" ∷ [])
select_job (j ∷ js) =
    let job = chosen j js in
    (
      some job,
      add_if (has_invalid_times job) "invalid_job_time_or_status" (copies_conflicts (j ∷ js)),
    )

-- `validate_save`
abbrev roots_conflict : Option String → Option String → Bool
roots_conflict (some a) (some b) = not (a == b)
roots_conflict _ _ = false

unfoldable pub validate_save : Job → Job → List String
validate_save save action =
    add_if (before save.start action.start || before action.stop save.stop) "save_time_conflict" (
      add_if (roots_conflict save.root action.root) "save_root_conflict" (
        add_if (not (action.kind == action_type)) "target_type_mismatch" (
          add_if (not (save.parent == some action.identity)) "save_parent_mismatch" (
            add_if (not (save.source == action.source)) "source_mismatch"
              (add_if (not (save.kind == "save job")) "not_a_save_job" [])))))

abbrev pub JobKey : Type 0
JobKey = String × String

abbrev pub Jobs : Type 0
Jobs = Dict JobKey (List Job)

-- `execution_check`, the part on the workflow of the action: what it adds to the blocking reasons.
unfoldable pub workflow_conflicts : Job → Job → List String → List String
workflow_conflicts action workflow blocked =
    add_if (before workflow.stop action.stop) "workflow_time_conflict" (
      add_if (before action.start workflow.start) "workflow_time_conflict"
        (add_if (not (workflow.kind == "workflow job")) "workflow_type_mismatch" blocked))

-- The reasons that block, and those that are pending.
abbrev pub Checked : Type 0
Checked = List String × List String

abbrev workflow_found : Job → Checked → Option Job × List String → Checked
workflow_found action (blocked, pending) (none, conflicts) =
    (blocked, add_if true "workflow_job_missing" pending)
workflow_found action (blocked, pending) (some workflow, conflicts) =
    (workflow_conflicts action workflow (update blocked conflicts), pending)

-- A root is None or an identity, which is not the empty text.
unfoldable pub check_workflow : Jobs → Job → Option String → Checked → Checked
check_workflow jobs action none (blocked, pending) =
    (blocked, add_if true "workflow_root_unconfirmed" pending)
check_workflow jobs action (some root) checked =
    workflow_found action checked (select_job (or_default [] (lookup (action.source, root) jobs)))

unfoldable pub refers_to : JobKey → Job → Bool
refers_to key j = j.kind == "save job" && j.source == key.0 && j.parent == some key.1

abbrev save_conflicts : Job → Option Job × List String → List String → List String
save_conflicts action (none, conflicts) blocked = update blocked conflicts
save_conflicts action (some save, conflicts) blocked =
    update (update blocked conflicts) (validate_save save action)

-- The loop over `jobs.values()`.
unfoldable pub check_saves : JobKey → Job → List (List Job) → List String → List String
check_saves key action [] blocked = blocked
check_saves key action (copies ∷ rest) blocked = check_saves key action rest (
    if any (refers_to key) copies
    then save_conflicts action (select_job copies) blocked
    else blocked)

abbrev check_action :
    JobKey → Jobs → Option Job × List String → Option Job × List String × List String
check_action key jobs (none, blocked) = (none, [], blocked)
check_action key jobs (some action, blocked) =
    let own : Checked = (
      add_if (not (action.kind == action_type)) "target_type_mismatch" blocked,
      add_if (not (is_terminal action)) "action_not_terminal" [],
    ) in
    let (blocked', pending) = check_workflow jobs action action.root own in
    (some action, check_saves key action (values jobs) blocked', pending)

-- `execution_check`
unfoldable pub execution_check : JobKey → Jobs → Option Job × List String × List String
execution_check key jobs = check_action key jobs (select_job (or_default [] (lookup key jobs)))
