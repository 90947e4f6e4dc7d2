-- ===== src/Parser/Networker/Summary.antt =====
-- apps/parsers/networker_rest_parser.py, `_build_summary`. The records are those that the parser has made
-- and classified: the fields that are read here are texts, but for the bytes.
pub mod Counts
use integrated_backup_monito.Prelude.{
  ℕ, zero, suc, String, Bool, not, Option, none, some, List, [], ◌∷◌, ◌==◌, string_eq, pair_eq,
  contains, length, take, if◌then◌else◌,
}
use integrated_backup_monito.Prelude.Int.{ℤ, pos, ◌+ℤ◌}
use integrated_backup_monito.Prelude.Text.{is_empty}
use integrated_backup_monito.Prelude.Dict.{Dict, add}
use integrated_backup_monito.Value.{
  Value, int, str, arr, obj, Items, Fields, end, field, get, fields, to_items,
}
use integrated_backup_monito.Parser.Common.{text_or}
use integrated_backup_monito.Parser.Networker.Counter.{counter, Nested, nested_counts}

-- A text of a record
abbrev pub text_value : Value → String
text_value (str s) = s
text_value _ = ""

abbrev pub text_at : String → Fields → String
text_at key entry = text_value (get key entry)

-- `record["policy_name"] or "unknown"`, and with the domain
abbrev pub policy_of : Fields → String
policy_of entry = text_or (text_at "policy_name" entry) "unknown"

abbrev pub domain_policy : Fields → String × String
domain_policy entry = (text_at "security_domain" entry, policy_of entry)

-- `... for job in jobs if job["status"] == status`
abbrev pub has_status : String → Fields → Bool
has_status status job = text_at "status" job == status

unfoldable pub keys_with {ℓ} : {A : Type ℓ} → (Fields → Bool) → (Fields → A) → List Fields → List A
keys_with test key [] = []
keys_with test key (r ∷ rs) =
    let rest = keys_with test key rs in if test r then key r ∷ rest else rest

abbrev pub any_record : Fields → Bool
any_record r = Bool.true

-- `len({...})`
unfoldable pub distinct_names : (Fields → Bool) → String → List Fields → List String
unfolding get add
distinct_names test key [] = []
distinct_names test key (r ∷ rs) =
    let rest = distinct_names test key rs in if test r then add (text_at key r) rest else rest

unfoldable pub distinct_workflows : List Fields → List (String × String)
unfolding get add
distinct_workflows [] = []
distinct_workflows (w ∷ ws) =
    add (text_at "policy_name" w, text_at "workflow_name" w) (distinct_workflows ws)

-- `item.get("size_bytes") or 0`
abbrev pub number_value : Value → ℤ
number_value (int n) = n
number_value _ = pos 0

abbrev pub bytes_of : Fields → ℤ
bytes_of backup = number_value (get "size_bytes" backup)

unfoldable pub total_bytes : List Fields → ℤ
unfolding get ◌+ℤ◌
total_bytes [] = pos 0
total_bytes (b ∷ bs) = bytes_of b +ℤ total_bytes bs

-- Counts as values
unfoldable pub counts_value : Dict String ℕ → Fields
counts_value [] = end
counts_value ((k, n) ∷ counts) = field k (int (pos n)) (counts_value counts)

unfoldable pub nested_value : Nested → Fields
unfolding counts_value
nested_value [] = end
nested_value ((k, counts) ∷ nested) = field k (obj (counts_value counts)) (nested_value nested)

abbrev by_policy : (Fields → Bool) → List Fields → Value
by_policy test records = obj (counts_value (counter (keys_with test policy_of records)))

-- The counts of a status by domain and policy
unfoldable pub counts_by_domain : (Fields → Bool) → List Fields → Nested
unfolding nested_counts counter keys_with get
counts_by_domain test records = nested_counts (counter (keys_with test domain_policy records))

abbrev by_domain : (Fields → Bool) → List Fields → Value
by_domain test records = obj (nested_value (counts_by_domain test records))

unfoldable pub keep_records : (Fields → Bool) → List Fields → List Fields
keep_records test [] = []
keep_records test (r ∷ rs) = let rest = keep_records test rs in if test r then r ∷ rest else rest

abbrev objects : List Fields → List Value
objects [] = []
objects (r ∷ rs) = obj r ∷ objects rs

abbrev is_named : String → Fields → Bool
is_named key entry = not (is_empty (text_at key entry))

abbrev count_value : ℕ → Value
count_value n = int (pos n)

unfoldable pub build_summary :
    String → List Fields → List Fields → List Fields → List Fields → List Fields → Fields
unfolding get fields keys_with distinct_names distinct_workflows total_bytes counts_value counter
    counts_by_domain nested_value keep_records to_items
build_summary server jobs clients policies workflows backups = fields (
    ("server", str server)
    ∷ ("job_count", count_value (length jobs))
    ∷ (
      "client_count",
      count_value (length (distinct_names (is_named "client_name") "client_name" clients)),
    )
    ∷ ("policy_count", count_value (length (distinct_names any_record "policy_name" policies)))
    ∷ ("workflow_count", count_value (length (distinct_workflows workflows)))
    ∷ ("backup_count", count_value (length backups))
    ∷ ("total_backup_bytes", int (total_bytes backups))
    ∷ ("job_success_count_by_policy", by_policy (has_status "success") jobs)
    ∷ ("job_failed_count_by_policy", by_policy (has_status "failed") jobs)
    ∷ ("job_running_count_by_policy", by_policy (has_status "running") jobs)
    ∷ ("workflow_count_by_policy", by_policy any_record workflows)
    ∷ ("job_success_count_by_domain_policy", by_domain (has_status "success") jobs)
    ∷ ("job_failed_count_by_domain_policy", by_domain (has_status "failed") jobs)
    ∷ ("job_running_count_by_domain_policy", by_domain (has_status "running") jobs)
    ∷ ("workflow_count_by_domain_policy", by_domain any_record workflows)
    ∷ (
      "recent_failed_jobs",
      arr (to_items (objects (take 20 (keep_records (has_status "failed") jobs)))),
    )
    ∷ [])
