-- ===== src/Lookup/Store/Update.antt =====
-- What `commit` writes under each key, and what its checks say of each document that it writes.
use integrated_backup_monito.Prelude.{
  ℕ, suc, String, ◌≡◌, ◌≢◌, refl, ◌∙◌, Option, none, some, [], ◌∷◌, ◌==◌, string_eq, arith,
  if◌then◌else◌, Bool-cases, Option-cases, inl, inr, eq_iff,
}
use integrated_backup_monito.Prelude.Dict.{Dict, lookup, insert, lookup-insert}
use integrated_backup_monito.Value.{Runtime}
use integrated_backup_monito.Lookup.Document.{LookupDocument}
use integrated_backup_monito.Lookup.Store.{
  Store, Checkpoint, committed, Check, check_document, check_update, check_batch, put_all, settle,
  retain_all, commit,
}

-- The document that a batch holds for a key.
abbrev pub later_or {ℓ} : {A : Type ℓ} → Option A → Option A → Option A
later_or (some a) b = some a
later_or none b = b

abbrev pub batch_find : String → Dict String LookupDocument → Option LookupDocument
batch_find j [] = none
batch_find j ((k, d) ∷ rest) = later_or (batch_find j rest) (if j == k then some d else none)

abbrev pub over :
    Option LookupDocument → Option LookupDocument → Option LookupDocument → Option LookupDocument
over old (some d) before = some (settle old d)
over old none before = before

lookup-put_all :
    (j : String) (stored batch : Dict String LookupDocument)
    → lookup j (put_all stored batch) ≡ later_or (batch_find j batch) (lookup j stored)
unfolding put_all
lookup-put_all j stored [] = refl
lookup-put_all j stored ((k, d) ∷ rest) =
    ground (arith, lookup-put_all j (insert k d stored) rest, lookup-insert j k d stored)

lookup-retain_all :
    (j : String) (stored batch replacement : Dict String LookupDocument)
    → lookup j (retain_all stored batch replacement)
      ≡ over (lookup j stored) (batch_find j batch) (lookup j replacement)
unfolding retain_all
lookup-retain_all j stored [] replacement = refl
lookup-retain_all j stored ((k, d) ∷ rest) replacement = ground (
  arith,
  lookup-retain_all j stored rest (insert k (settle (lookup k stored) d) replacement),
  lookup-insert j k (settle (lookup k stored) d) replacement,
  eq_iff j k,
)

-- Each check is passed only if those behind it are.
check_document-none :
    (rt : Runtime) (k : String) (d : LookupDocument) (rest : Check)
    → check_document rt k d rest ≡ none
    → (check_document rt k d none ≡ none) × (rest ≡ none)
unfolding check_document
check_document-none rt k d rest h = ground arith

check_update-none :
    (old : Option LookupDocument) (d : LookupDocument) (rest : Check)
    → check_update old d rest ≡ none
    → (check_update old d none ≡ none) × (rest ≡ none)
unfolding check_update
check_update-none none d rest h = (refl, h)
check_update-none (some old) d rest h = ground arith

-- A batch that passes has passed document by document.
module _ (rt : Runtime) (stored : Dict String LookupDocument) (j : String)
    (d : LookupDocument) where
  pub check_batch-find :
      (batch : Dict String LookupDocument)
      → check_batch rt stored batch ≡ none
      → batch_find j batch ≡ some d
      → (check_document rt j d none ≡ none) × (check_update (lookup j stored) d none ≡ none)
  unfolding check_batch
  check_batch-find [] passes found = cc
  check_batch-find ((k, e) ∷ rest) passes found =
      let first = check_document-none rt k e _ passes in
      let second = check_update-none (lookup k stored) e _ first.1 in
      elim (Option-cases (batch_find j rest)) [
        | inl absent ↦ elim (Bool-cases (j == k)) [
          | inl same ↦
              let key : j ≡ k = (eq_iff j k).0 same in
              let document : some e ≡ some d = rw (absent, same) at found in
              (cc (key, document, first.0), cc (key, document, second.0))
          | inr other ↦ cc (rw (absent, other) at found)
        ]
        | inr (f, present) ↦ check_batch-find rest second.1 (present ∙ (rw present at found))
      ]

-- A commit that succeeds has passed its checks, and writes under each key of the batch the document
-- that the batch holds for it, settled against the one that was there.
module _ (rt : Runtime) (s : Store) (batch : Dict String LookupDocument) (expected : ℕ)
    (c : Checkpoint) where
  pub commit-passes :
      (version : ℕ)
      → (commit rt s batch expected c).1 ≡ committed version
      → check_batch rt s.documents batch ≡ none
  unfolding commit
  commit-passes version h = ground arith

  pub lookup-commit :
      (version : ℕ) (j : String)
      → (commit rt s batch expected c).1 ≡ committed version
      → lookup j (commit rt s batch expected c).0.documents
        ≡ over (lookup j s.documents) (batch_find j batch) (lookup j s.documents)
  unfolding commit
  lookup-commit version j h = ground (
    arith,
    lookup-retain_all j s.documents batch (put_all s.documents batch),
    lookup-put_all j s.documents batch,
  )

  -- In every other case the store is left as it was.
  pub commit-unchanged :
      ((version : ℕ) → (commit rt s batch expected c).1 ≢ committed version)
      → (commit rt s batch expected c).0 ≡ s
  unfolding commit
  commit-unchanged h = ground (arith, h (suc s.version))
