-- ===== src/Lookup/Store/Sound.antt =====
-- What a store that was filled by commits alone holds, and what one commit changes.
use mathlib.Core.Path.{subst}
use mathlib.Core.Option.{some-injective}
use integrated_backup_monito.Prelude.{
  ℕ, suc, String, ◌≡◌, ◌≢◌, ◌⊎◌, refl, sym, ◌∙◌, Bool, true, false, ◌&&◌, distinct_bools, Option,
  none, some, ◌==◌, string_eq, nat_eq, option_eq, arith, Bool-cases, Option-cases, inl, inr, eq_iff,
  nat_beq_iff,
}
use integrated_backup_monito.Prelude.Dict.{Dict, lookup, lookup-nil}
use integrated_backup_monito.Value.{Runtime}
use integrated_backup_monito.Lookup.Jobs.{is_missing}
use integrated_backup_monito.Lookup.Document.{
  Mapping, resolved, Verification, verified, LookupDocument, run_key,
}
use integrated_backup_monito.Lookup.Store.{
  Store, empty_store, Checkpoint, committed, check_batch, check_document, settle, retain, commit,
  is_authorized, publishes_nothing, publishes_all, is_blocked, is_named, is_resolved, is_verified,
}
use integrated_backup_monito.Lookup.Store.Update.{
  batch_find, over, check_batch-find, commit-passes, lookup-commit,
}
use integrated_backup_monito.Lookup.Store.History.{Commits, here, next, committed_cases}

module _ (rt : Runtime) (s : Store) (batch : Dict String LookupDocument) (expected : ℕ)
    (c : Checkpoint) where
  -- A commit leaves the store as it was and returns no new version, or it was given the version of the
  -- store, and then the version is one more, the checkpoint is the given one, and each key has the
  -- batch's document, settled against the old one, or else what it had.
  pub commit_all_or_nothing :
      (j : String)
      → (((commit rt s batch expected c).0 ≡ s)
          × ((commit rt s batch expected c).1 ≢ committed (suc s.version)))
        ⊎ ((expected ≡ s.version)
            × ((commit rt s batch expected c).1 ≡ committed (suc s.version))
            × ((commit rt s batch expected c).0.version ≡ suc s.version)
            × ((commit rt s batch expected c).0.checkpoint ≡ some c)
            × (lookup j (commit rt s batch expected c).0.documents
                ≡ over (lookup j s.documents) (batch_find j batch) (lookup j s.documents)))
  unfolding commit
  commit_all_or_nothing j = elim (Bool-cases (expected == s.version)) [
    | inr stale ↦ inl (rw stale refl, rw stale (λ h. cc h))
    | inl current ↦ elim (Option-cases (check_batch rt s.documents batch)) [
      | inr (message, fails) ↦ inl (rw (current, fails) refl, rw (current, fails) (λ h. cc h))
      | inl passes ↦
          let done : (commit rt s batch expected c).1 ≡ committed (suc s.version) =
            rw (current, passes) refl in
          inr (
            (nat_beq_iff expected s.version).0 current,
            done,
            rw (current, passes) refl,
            rw (current, passes) refl,
            lookup-commit rt s batch expected c (suc s.version) j done,
          )
    ]
  ]

-- A name that is given and is not the empty text.
abbrev pub IsNamed : Option String → Type 0
IsNamed name = (text : String) × (name ≡ some text) × (text ≢ "")

-- A document under its own key, with no name at all, or resolved and verified with one candidate
-- counted and three names.
pub record IsFaithful (j : String) (d : LookupDocument) : Type 0 where
  pub own_key : j ≡ d.action_run_key
  pub key_parts : j ≡ run_key (d.source_networker, d.action_job_id)
  pub publishes :
      ((d.policy_name ≡ none) × (d.workflow_name ≡ none) × (d.protection_group ≡ none))
      ⊎ ((d.mapping_status ≡ resolved)
          × (d.verification_status ≡ verified)
          × (d.candidate_count ≡ 1)
          × IsNamed d.policy_name
          × IsNamed d.workflow_name
          × IsNamed d.protection_group)

both : (a b : Bool) → (a && b) ≡ true → (a ≡ true) × (b ≡ true)
both true b h = (refl, h)
both false b h = absurd (distinct_bools (sym h))

is_missing-none : (name : Option String) → is_missing name ≡ true → name ≡ none
is_missing-none none h = refl
is_missing-none (some s) h = absurd (distinct_bools (sym h))

is_named-IsNamed : (name : Option String) → is_named name ≡ true → IsNamed name
is_named-IsNamed none h = absurd (distinct_bools (sym h))
is_named-IsNamed (some s) h = (s, refl, λ e. distinct_bools (sym (rw e at h)))

is_resolved_lem : (m : Mapping) → is_resolved m ≡ true → m ≡ resolved
is_resolved_lem m h = ground (arith, h)

is_verified_lem : (v : Verification) → is_verified v ≡ true → v ≡ verified
is_verified_lem v h = ground (arith, h)

check_document-cases :
    (rt : Runtime) (j : String) (d : LookupDocument)
    → check_document rt j d none ≡ none
    → (j ≡ d.action_run_key)
      × (j ≡ run_key (d.source_networker, d.action_job_id))
      × ((publishes_nothing d ≡ true) ⊎ ((is_authorized d ≡ true) × (publishes_all d ≡ true)))
unfolding check_document
check_document-cases rt j d h =
    ground
      (arith, eq_iff j d.action_run_key, eq_iff j (run_key (d.source_networker, d.action_job_id)))

check_document-IsFaithful :
    (rt : Runtime) (j : String) (d : LookupDocument)
    → check_document rt j d none ≡ none
    → IsFaithful j d
unfolding publishes_nothing is_authorized publishes_all
check_document-IsFaithful rt j d h =
    let (own, parts, publishing) = check_document-cases rt j d h in
    record {
      own_key = own;
      key_parts = parts;
      publishes = elim publishing [
        | inl nothing ↦
            let (names, group) =
              both (is_missing d.policy_name && is_missing d.workflow_name)
                (is_missing d.protection_group) nothing in
            let (policy, workflow) =
              both (is_missing d.policy_name) (is_missing d.workflow_name) names in
            inl (
              is_missing-none d.policy_name policy,
              is_missing-none d.workflow_name workflow,
              is_missing-none d.protection_group group,
            )
        | inr (allowed, all_) ↦
            let (mapped, certain) =
              both (is_resolved d.mapping_status) (is_verified d.verification_status) allowed in
            let (names, group) =
              both (d.candidate_count == 1 && is_named d.policy_name && is_named d.workflow_name)
                (is_named d.protection_group) all_ in
            let (counted, workflow) =
              both (d.candidate_count == 1 && is_named d.policy_name) (is_named d.workflow_name)
                names in
            let (count, policy) = both (d.candidate_count == 1) (is_named d.policy_name) counted in
            inr (
              is_resolved_lem d.mapping_status mapped,
              is_verified_lem d.verification_status certain,
              (nat_beq_iff d.candidate_count 1).0 count,
              is_named-IsNamed d.policy_name policy,
              is_named-IsNamed d.workflow_name workflow,
              is_named-IsNamed d.protection_group group,
            )
      ];
    }

settle-IsFaithful :
    (j : String) (old : Option LookupDocument) (d : LookupDocument)
    → IsFaithful j d
    → IsFaithful j (settle old d)
unfolding retain
settle-IsFaithful j none d f = f
settle-IsFaithful j (some old) d f = elim (Bool-cases (is_blocked d.verification_status)) [
  | inl held ↦
      rw held (record { own_key = f.own_key; key_parts = f.key_parts; publishes = f.publishes })
  | inr free ↦ rw free f
]

-- Whatever commits were tried on the empty store, each document that it holds stands under the key that is
-- made of its source and its action's job id, and has none of the three names, or it is resolved and
-- verified, its candidate count is one, and its policy, workflow and protection group are not empty.
pub Commits-IsFaithful :
    (rt : Runtime) (t : Store) (j : String) (d : LookupDocument)
    → Commits rt empty_store t
    → lookup j t.documents ≡ some d
    → IsFaithful j d
Commits-IsFaithful rt t j d here stored = cc (lookup-nil {V = LookupDocument} j)
Commits-IsFaithful rt t j d (next {t = u} batch expected c run) stored =
    elim (committed_cases rt u batch expected c) [
      | inr same ↦ Commits-IsFaithful rt u j d run (rw same at stored)
      | inl (version, h) ↦
          let found = sym (lookup-commit rt u batch expected c version j h) ∙ stored in
          elim (Option-cases (batch_find j batch)) [
            | inl absent ↦ Commits-IsFaithful rt u j d run (rw absent at found)
            | inr (e, present) ↦
                let old = lookup j u.documents in
                let written : some (settle old e) ≡ some d = rw present at found in
                let passed =
                  check_batch-find rt u.documents j e batch
                    (commit-passes rt u batch expected c version h) present in
                subst (IsFaithful j) (some-injective (settle old e) d written)
                  (settle-IsFaithful j old e (check_document-IsFaithful rt j e (passed.0)))
          ]
    ]
