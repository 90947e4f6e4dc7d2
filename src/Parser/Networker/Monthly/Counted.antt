-- ===== src/Parser/Networker/Monthly/Counted.antt =====
-- The rows of the monthly report, against the records themselves.
use integrated_backup_monito.Prelude.{
  ℕ, ◌+◌, ◌≡◌, refl, sym, ap, ◌∙◌, Bool, true, false, ◌&&◌, List, [], ◌∷◌, ◌==◌, string_eq,
  triple_eq, arith, Bool-cases, inl, inr, if◌then◌else◌,
}
use integrated_backup_monito.Prelude.Int.{ℤ, pos, ◌+ℤ◌}
use integrated_backup_monito.Prelude.Int.Laws.{add_comm, add_assoc, zero-add}
use integrated_backup_monito.Prelude.Dict.{lookup}
use integrated_backup_monito.Value.{Fields}
use integrated_backup_monito.Parser.Networker.Summary.{
  has_status, any_record, bytes_of, total_bytes, keep_records,
}
use integrated_backup_monito.Parser.Networker.Summary.Counts.{count_where}
use integrated_backup_monito.Parser.Networker.Monthly.{
  Row, Key, Rows, key_of, change, with_workflow, with_backup, with_job, change_all, monthly_rows,
}
use integrated_backup_monito.Parser.Networker.Monthly.Rows.{
  row_at, row_at-change, change_all-count, one_if, job_success, job_failed, job_running,
}

abbrev no_record : Fields → Bool
no_record r = false

none_counted :
    (p : Fields → Bool) (records : List Fields) → count_where (λ e. no_record e && p e) records ≡ 0
none_counted p [] = refl
none_counted p (r ∷ rs) = omega (arith, none_counted p rs)

-- A measure of rows that a loop leaves as it is.
change_all-keeps :
    (g : Row → ℕ) (f : Fields → Row → Row)
    → ((e : Fields) (r : Row) → g (f e r) ≡ g r)
    → (key : Key) (records : List Fields) (rows : Rows)
    → g (row_at key (change_all f records rows)) ≡ g (row_at key rows)
change_all-keeps g f kept key records rows = omega (
  arith,
  change_all-count g f no_record (λ e r. omega (arith, kept e r)) key records rows,
  none_counted (λ e. key == key_of e) records,
)

-- The bytes that a loop over the backups adds.
swap_added : (a b c : ℤ) → (a +ℤ b) +ℤ c ≡ b +ℤ (a +ℤ c)
swap_added a b c = ap (λ t. t +ℤ c) (add_comm a b) ∙ add_assoc b a c

abbrev bytes_at : Key → List Fields → ℤ
bytes_at key backups = total_bytes (keep_records (λ b. key == key_of b) backups)

change_all-bytes :
    (key : Key) (backups : List Fields) (rows : Rows)
    → (row_at key (change_all with_backup backups rows)).total_backup_bytes
      ≡ (row_at key rows).total_backup_bytes +ℤ bytes_at key backups
unfolding change_all total_bytes keep_records
change_all-bytes key [] rows = sym (
    add_comm (row_at key rows).total_backup_bytes (pos 0)
    ∙ zero-add (row_at key rows).total_backup_bytes)
change_all-bytes key (b ∷ backups) rows =
    let later = change_all-bytes key backups (change (key_of b) (with_backup b) rows) in
    let now = row_at-change key (key_of b) (with_backup b) rows in
    elim (Bool-cases (key == key_of b)) [
      | inl here ↦
          let found : row_at key (change (key_of b) (with_backup b) rows)
              ≡ with_backup b (row_at key rows) =
            now ∙ rw here refl in
          rw (later, found, here)
            (add_assoc (row_at key rows).total_backup_bytes (bytes_of b) (bytes_at key backups))
      | inr away ↦
          let kept : row_at key (change (key_of b) (with_backup b) rows) ≡ row_at key rows =
            now ∙ rw away refl in
          rw (later, kept, away) refl
    ]

-- A loop that leaves the bytes as they are.
change_all-same_bytes :
    (f : Fields → Row → Row)
    → ((e : Fields) (r : Row) → (f e r).total_backup_bytes ≡ r.total_backup_bytes)
    → (key : Key) (records : List Fields) (rows : Rows)
    → (row_at key (change_all f records rows)).total_backup_bytes
      ≡ (row_at key rows).total_backup_bytes
unfolding change_all
change_all-same_bytes f same key [] rows = refl
change_all-same_bytes f same key (e ∷ records) rows =
    let later = change_all-same_bytes f same key records (change (key_of e) (f e) rows) in
    later
    ∙ ap (λ r. r.total_backup_bytes) (row_at-change key (key_of e) (f e) rows)
    ∙ unchanged (key == key_of e)
  where
    unchanged :
        (b : Bool)
        → (if b then f e (row_at key rows) else row_at key rows).total_backup_bytes
          ≡ (row_at key rows).total_backup_bytes
    unchanged true = same e (row_at key rows)
    unchanged false = refl

job_bytes : (j : Fields) (r : Row) → (with_job j r).total_backup_bytes ≡ r.total_backup_bytes
job_bytes j r = ground arith

job_workflows : (j : Fields) (r : Row) → (with_job j r).workflow_count ≡ r.workflow_count
job_workflows j r = ground arith

abbrev count_at_key : Key → (Fields → Bool) → List Fields → ℕ
count_at_key key test records = count_where (λ e. test e && (key == key_of e)) records

-- The three loops at a key
module _ (key : Key) (jobs workflows backups : List Fields) where
  abbrev after_workflows : Rows
  after_workflows = change_all with_workflow workflows []

  abbrev after_backups : Rows
  after_backups = change_all with_backup backups after_workflows

  abbrev finished_row : Row
  finished_row = row_at key (monthly_rows jobs workflows backups)

  jobs_counted :
      (g : Row → ℕ) (test : Fields → Bool)
      → ((j : Fields) (r : Row) → g (with_job j r) ≡ one_if (test j) + g r)
      → ((b : Fields) (r : Row) → g (with_backup b r) ≡ g r)
      → ((w : Fields) (r : Row) → g (with_workflow w r) ≡ g r)
      → g (row_at key []) ≡ 0
      → g finished_row ≡ count_at_key key test jobs
  unfolding monthly_rows
  jobs_counted g test by_job by_backup by_workflow at_first = omega (
    arith,
    change_all-count g with_job test by_job key jobs after_backups,
    change_all-keeps g with_backup by_backup key backups after_workflows,
    change_all-keeps g with_workflow by_workflow key workflows [],
    at_first,
  )

  workflows_counted : finished_row.workflow_count ≡ count_at_key key any_record workflows
  unfolding monthly_rows lookup
  workflows_counted = omega (
    arith,
    change_all-keeps (λ r. r.workflow_count) with_job job_workflows key jobs after_backups,
    change_all-keeps (λ r. r.workflow_count) with_backup (λ b r. refl) key backups after_workflows,
    change_all-count (λ r. r.workflow_count) with_workflow any_record (λ w r. omega arith) key
        workflows [],
  )

  bytes_counted : finished_row.total_backup_bytes ≡ bytes_at key backups
  unfolding monthly_rows lookup ◌+ℤ◌
  bytes_counted =
      change_all-same_bytes with_job job_bytes key jobs after_backups
      ∙ change_all-bytes key backups after_workflows
      ∙ ap (λ t. t +ℤ bytes_at key backups)
          (change_all-same_bytes with_workflow (λ w r. refl) key workflows [])
      ∙ zero-add (bytes_at key backups)

  -- The monthly report's row of a key, the default row where there is none, has the sum of the bytes of
  -- the backups of that key, and the numbers of its jobs that succeeded, failed and run and of its
  -- workflows.
  pub monthly_rows-counts :
      (finished_row.total_backup_bytes ≡ bytes_at key backups)
      × (finished_row.job_success_count ≡ count_at_key key (has_status "success") jobs)
      × (finished_row.job_failed_count ≡ count_at_key key (has_status "failed") jobs)
      × (finished_row.job_running_count ≡ count_at_key key (has_status "running") jobs)
      × (finished_row.workflow_count ≡ count_at_key key any_record workflows)
  unfolding lookup
  monthly_rows-counts = (
    bytes_counted,
    jobs_counted (λ r. r.job_success_count) (has_status "success") job_success (λ b r. refl)
        (λ w r. refl) refl,
    jobs_counted (λ r. r.job_failed_count) (has_status "failed") job_failed (λ b r. refl)
        (λ w r. refl) refl,
    jobs_counted (λ r. r.job_running_count) (has_status "running") job_running (λ b r. refl)
        (λ w r. refl) refl,
    workflows_counted,
  )
