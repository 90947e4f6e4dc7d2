-- ===== src/Collector/Payloads/Unknown.antt =====
-- The counts that are unknown where an endpoint failed.
use integrated_backup_monito.Prelude.{
  String, ◌≡◌, refl, Bool, true, false, ◌==◌, string_eq, arith, other_text, if◌then◌else◌,
}
use integrated_backup_monito.Value.{Value, null, Fields, get}
use integrated_backup_monito.Value.Merge.{get-put}
use integrated_backup_monito.Collector.Payloads.{
  put_if, has_error, mark_failed_endpoint_counts_unknown,
}

abbrev null_if : Bool → Bool → Value → Value
null_if failed here v = if failed then (if here then null else v) else v

get-put_if :
    (b : Bool) (j key : String) (fs : Fields)
    → get j (put_if b key fs) ≡ null_if b (j == key) (get j fs)
unfolding put_if
get-put_if true j key fs = get-put j key null fs
get-put_if false j key fs = refl

abbrev pub is_unknown : String → Fields → Bool
is_unknown key errors =
    if key == "job_count"
    then has_error "jobs" errors
    else if key == "backup_count"
    then has_error "backups" errors
    else if key == "total_backup_bytes"
    then has_error "backups" errors
    else false

marked :
    (is_job is_count is_bytes jobs backups : Bool) (v : Value)
    → (is_job ≡ true → is_count ≡ false)
    → (is_job ≡ true → is_bytes ≡ false)
    → null_if backups is_bytes (null_if backups is_count (null_if jobs is_job v)) ≡ (
        if (if is_job
          then jobs
          else if is_count
          then backups
          else if is_bytes
          then backups
          else false)
        then null
        else v)
marked is_job is_count is_bytes jobs backups v not_count not_bytes = ground arith

-- After an error of the endpoint of jobs the count of jobs is None, and after one of the endpoint of backups
-- the count and the bytes of the backups are; whatever else the summary has stays.
pub get-mark_failed_endpoint_counts_unknown :
    (key : String) (summary errors : Fields)
    → get key (mark_failed_endpoint_counts_unknown summary errors)
      ≡ (if is_unknown key errors then null else get key summary)
unfolding mark_failed_endpoint_counts_unknown
get-mark_failed_endpoint_counts_unknown key summary errors =
    let jobs = has_error "jobs" errors in
    let backups = has_error "backups" errors in
    let once = put_if jobs "job_count" summary in
    let twice = put_if backups "backup_count" once in
    rw
      (
        get-put_if backups key "total_backup_bytes" twice,
        get-put_if backups key "backup_count" once,
        get-put_if jobs key "job_count" summary,
      )
      (marked (key == "job_count") (key == "backup_count") (key == "total_backup_bytes") jobs
        backups (get key summary) (other_text "backup_count" "job_count" key refl)
        (other_text "total_backup_bytes" "job_count" key refl))
