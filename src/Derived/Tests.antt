-- ===== src/Derived/Tests.antt =====
-- The theorems on derived documents, applied to a workflow job and a save job below it.
use integrated_backup_monito.Prelude.{
  ℕ, none, String, ◌≡◌, ◌≢◌, refl, ◌∙◌, sym, some, [], ◌∷◌, Bool, true, false,
}
use integrated_backup_monito.Prelude.Int.{pos}
use integrated_backup_monito.Prelude.Text.{without_z, lower, is_empty}
use integrated_backup_monito.Value.{int, str, merge, utc_instant, Fields, fields, get}
use integrated_backup_monito.Value.Example.{plain}
use integrated_backup_monito.Derived.{string, parse_datetime}
use integrated_backup_monito.Derived.Networker.{duration_seconds, job_run_record, run_fields}
use integrated_backup_monito.Derived.Laws.{IsRun, job_run_record-IsRun}
use integrated_backup_monito.Derived.RunKey.{
  root_field, run_source, root_identity, workflow_run_key,
}
use integrated_backup_monito.Derived.RunKey.Unique.{workflow_run_key_unique}

abbrev workflow_job : Fields
unfolding fields
workflow_job =
    fields
      (("source_networker", str "Core") ∷ ("type", str "workflow job") ∷ ("job_id", str "12") ∷ [])

abbrev save_job : Fields
unfolding fields
save_job = fields (
    ("source_networker", str "core")
    ∷ ("type", str "Save Job")
    ∷ ("job_id", str "31")
    ∷ ("root_parent_job_id", str " 12 ")
    ∷ [])

workflow_job_key : workflow_run_key plain workflow_job ≡ "core:12"
unfolding workflow_run_key fields workflow_job
workflow_job_key = refl

save_job_key : workflow_run_key plain save_job ≡ "core:12"
unfolding workflow_run_key fields save_job
save_job_key = refl

is_filled : String → Bool
is_filled s = elim (is_empty s) [ true ↦ false | false ↦ true ]

abbrev shared_key : String
shared_key = "core:12"

key-ne-nil : shared_key ≢ ""
unfolding is_filled
key-ne-nil h = cc

workflow_run_key_unique_example :
    (source : String) × (identity : String) × (run_source plain workflow_job ≡ some source)
    × (run_source plain save_job ≡ some source)
    × (root_identity plain workflow_job
          (root_field (lower (string plain (get "type" workflow_job))))
        ≡ some identity)
    × (root_identity plain save_job (root_field (lower (string plain (get "type" save_job))))
        ≡ some identity)
workflow_run_key_unique_example =
    workflow_run_key_unique plain workflow_job save_job (λ h. key-ne-nil (sym workflow_job_key ∙ h))
      (workflow_job_key ∙ sym save_job_key)

-- A job that runs since the instant that the test's parser accepts.
abbrev running_job : Fields
unfolding fields
running_job = fields (
    ("job_id", str " 7 ")
    ∷ ("status", str "Running")
    ∷ ("start_time", str "2026-01-02T03:04:05Z")
    ∷ ("name", str "nightly")
    ∷ [])

running_record : Fields
unfolding running_job
running_record =
    merge running_job (fields (run_fields plain running_job (some 172800000000) none 172800000000))

job_run_record_running : job_run_record plain running_job ≡ some running_record
unfolding job_run_record running_record running_job fields without_z utc_instant
job_run_record_running = refl

job_run_record-IsRun_example :
    (event : ℕ) × (result : String) × IsRun plain running_job running_record
      (parse_datetime plain (get "start_time" running_job))
      (parse_datetime plain (get "end_time" running_job))
      event
      result
job_run_record-IsRun_example =
    job_run_record-IsRun plain running_job running_record job_run_record_running

two_seconds : duration_seconds (some 5) (some 2500005) ≡ int (pos 2)
two_seconds = refl
