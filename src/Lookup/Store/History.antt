-- ===== src/Lookup/Store/History.antt =====
-- What stays true of a stored document through any commits, accepted or not.
use integrated_backup_monito.Prelude.{
  ℕ, ◌≤◌, String, ◌≡◌, ◌≢◌, ◌⊎◌, refl, ◌∙◌, true, false, none, some, ◌==◌, string_eq, nat_eq,
  option_eq, contains, arith, suc, option_beq_iff, Bool-cases, Option-cases, inl, inr,
}
use integrated_backup_monito.Prelude.Text.{is_empty}
use integrated_backup_monito.Prelude.Dict.{Dict, lookup}
use integrated_backup_monito.Value.{Runtime}
use integrated_backup_monito.Lookup.Jobs.{terminal}
use integrated_backup_monito.Lookup.Document.{LookupDocument}
use integrated_backup_monito.Lookup.Store.{
  Store, Checkpoint, committed, check_document, check_batch, loses_candidates, check_update,
  replaces_execution, replaces_candidates, regresses, settle, retain, commit,
}
use integrated_backup_monito.Lookup.Store.Update.{
  batch_find, check_batch-find, commit-passes, lookup-commit,
}

-- What has become of a document: nothing, or a batch has replaced it.
abbrev pub Replaced : Runtime → String → LookupDocument → LookupDocument → Type 0
Replaced rt j old new =
    (d : LookupDocument) × (new ≡ settle (some old) d)
    × (check_document rt j d none ≡ none)
    × (check_update (some old) d none ≡ none)

module _ (rt : Runtime) (s : Store) (batch : Dict String LookupDocument) (expected : ℕ)
    (c : Checkpoint) where
  pub committed_cases :
      ((version : ℕ) × ((commit rt s batch expected c).1 ≡ committed version))
      ⊎ ((commit rt s batch expected c).0 ≡ s)
  unfolding commit
  committed_cases = elim (Bool-cases (expected == s.version)) [
    | inr stale ↦ inr (rw stale refl)
    | inl current ↦ elim (Option-cases (check_batch rt s.documents batch)) [
      | inl passes ↦ inl (suc s.version, rw (current, passes) refl)
      | inr (message, fails) ↦ inr (rw (current, fails) refl)
    ]
  ]

  module _ (j : String) (old : LookupDocument) (stored : lookup j s.documents ≡ some old) where
    pub commit_step :
        (new : LookupDocument) × (lookup j (commit rt s batch expected c).0.documents ≡ some new)
        × ((new ≡ old) ⊎ Replaced rt j old new)
    commit_step = elim committed_cases [
      | inr same ↦ (old, rw same stored, inl refl)
      | inl (version, h) ↦ elim (Option-cases (batch_find j batch)) [
        | inl absent ↦
            (old, lookup-commit rt s batch expected c version j h ∙ rw (stored, absent), inl refl)
        | inr (d, found) ↦
            let passed =
              check_batch-find rt s.documents j d batch
                (commit-passes rt s batch expected c version h) found in
            (
              settle (some old) d,
              lookup-commit rt s batch expected c version j h ∙ rw (stored, found),
              inr (d, refl, passed.0, rw stored at (passed.1)),
            )
      ]
    ]

running-ne-terminal : (t : String) → contains t terminal ≡ true → t ≢ "running"
running-ne-terminal t h e = let h' : contains "running" terminal ≡ true = rw e at h in cc h'

module _ (old d : LookupDocument) where
  check_update-parts :
      check_update (some old) d none ≡ none
      → (replaces_execution old d ≡ false)
        × (replaces_candidates old d ≡ false)
        × (loses_candidates old d ≡ false)
        × (regresses old d ≡ false)
  unfolding check_update
  check_update-parts h = ground arith

  settle_start :
      (t : String)
      → old.execution.action_start_time ≡ some t
      → is_empty t ≡ false
      → replaces_execution old d ≡ false
      → (settle (some old) d).execution.action_start_time ≡ some t
  unfolding replaces_execution retain
  settle_start t h e passes =
      ground (arith, option_beq_iff d.execution.action_start_time old.execution.action_start_time)

  settle_count :
      replaces_candidates old d ≡ false
      → old.candidate_count ≤ (settle (some old) d).candidate_count
  unfolding replaces_candidates retain
  settle_count passes = ground arith

  settle-terminal :
      (t : String)
      → old.execution.action_status ≡ some t
      → contains t terminal ≡ true
      → regresses old d ≡ false
      → (settle (some old) d).execution.action_status ≢ some "running"
  unfolding regresses retain
  settle-terminal t h e passes r = ground (arith, running-ne-terminal t e)

-- The stores that any sequence of commits leaves, whatever their batches and whether they succeed.
pub data Commits (rt : Runtime) (s : Store) : Store → Type 0 where
  here : Commits rt s s
  next :
      {t : Store} (batch : Dict String LookupDocument) (expected : ℕ) (c : Checkpoint)
      → Commits rt s t
      → Commits rt s (commit rt t batch expected c).0

module _ (rt : Runtime) (j : String) where
  step_start :
      (s : Store) (old : LookupDocument) (t : String) (batch : Dict String LookupDocument)
      (expected : ℕ) (c : Checkpoint)
      → lookup j s.documents ≡ some old
      → old.execution.action_start_time ≡ some t
      → is_empty t ≡ false
      → (new : LookupDocument) × (lookup j (commit rt s batch expected c).0.documents ≡ some new)
        × (new.execution.action_start_time ≡ some t)
        × (old.candidate_count ≤ new.candidate_count)
  step_start s old t batch expected c stored start present =
      let (new, found, how) = commit_step rt s batch expected c j old stored in
      elim how [
        | inl same ↦ (new, found, rw same start, rw same (omega arith))
        | inr (d, settled, _, passes) ↦
            let parts = check_update-parts old d passes in
            (
              new,
              found,
              rw settled (settle_start old d t start present parts.0),
              rw settled (settle_count old d parts.1),
            )
      ]

  -- Once a document is stored with a start time, its key has through all later commits a document with
  -- that start time, and with at least as many candidates.
  pub Commits-keep_start :
      (s t : Store) (old : LookupDocument) (start : String)
      → Commits rt s t
      → lookup j s.documents ≡ some old
      → old.execution.action_start_time ≡ some start
      → is_empty start ≡ false
      → (new : LookupDocument) × (lookup j t.documents ≡ some new)
        × (new.execution.action_start_time ≡ some start)
        × (old.candidate_count ≤ new.candidate_count)
  Commits-keep_start s t old start here stored has present = (old, stored, has, omega arith)
  Commits-keep_start s t old start (next {t = u} batch expected c run) stored has present =
      let (mid, found, kept, le) = Commits-keep_start s u old start run stored has present in
      let (new, found', kept', le') = step_start u mid start batch expected c found kept present in
      (new, found', kept', omega (arith, le, le'))

  -- A commit never puts a running action where a terminal one is stored.
  pub commit_keeps_terminal :
      (s : Store) (old : LookupDocument) (t : String) (batch : Dict String LookupDocument)
      (expected : ℕ) (c : Checkpoint)
      → lookup j s.documents ≡ some old
      → old.execution.action_status ≡ some t
      → contains t terminal ≡ true
      → (new : LookupDocument) × (lookup j (commit rt s batch expected c).0.documents ≡ some new)
        × (new.execution.action_status ≢ some "running")
  commit_keeps_terminal s old t batch expected c stored status ended =
      let (new, found, how) = commit_step rt s batch expected c j old stored in
      elim how [
        | inl same ↦ (new, found, rw (same, status) (λ r. running-ne-terminal t ended (cc r)))
        | inr (d, settled, _, passes) ↦ (
          new,
          found,
          rw settled (settle-terminal old d t status ended (check_update-parts old d passes).3),
        )
      ]
