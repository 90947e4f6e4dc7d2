-- ===== src/Lookup/Document/Publish.antt =====
-- When a document of the lookup index publishes names.
use mathlib.Core.Option.{some-injective}
use integrated_backup_monito.Prelude.{
  ℕ, String, ◌≡◌, refl, ap, Bool, true, false, ◌&&◌, ◌||◌, not, Option, none, some, List, [], ◌∷◌,
  map, string_eq, pair_eq, triple_eq, contains, All, any, arith,
}
use integrated_backup_monito.Prelude.Dict.{lookup, or_default, add_if-eq-nil, update-eq-nil}
use integrated_backup_monito.Value.{Runtime}
use integrated_backup_monito.Lookup.Models.{
  Evidence, Candidate, Coverage, candidate, complete_for, api_timestamp,
}
use integrated_backup_monito.Lookup.Jobs.{Job, JobKey, Checked, execution_check, is_missing}
use integrated_backup_monito.Lookup.Jobs.Choice.{IsConfirmed, execution_check-eq-nil}
use integrated_backup_monito.Lookup.Builder.{Builder}
use integrated_backup_monito.Lookup.Document.{
  Request, distinct, covered, has_raw_reference, is_complete, early_pending, conflicts_in_time,
  check_time, check_times, is_after, late_pending, assess, mapping_of, verification_of,
  public_names, records_of, document, is_empty_list, instant_of, start_of, stop_of,
}

-- Both times of a backup are known, in order, and not outside those of the action.
pub record TimeFits (rt : Runtime) (start stop : Option ℕ) (e : Evidence) : Type 0 where
  pub saved : ℕ
  pub completed : ℕ
  pub saved_at : api_timestamp rt e.save_time ≡ some saved
  pub completed_at : api_timestamp rt e.completion_time ≡ some completed
  pub fits : conflicts_in_time start stop (some saved) (some completed) ≡ false

module _ (rt : Runtime) (start stop : Option ℕ) where
  both_known :
      (e : Evidence) (saved completed : Option ℕ)
      → api_timestamp rt e.save_time ≡ saved
      → api_timestamp rt e.completion_time ≡ completed
      → is_missing saved || is_missing completed ≡ false
      → not (is_missing saved || is_missing completed)
          && conflicts_in_time start stop saved completed
        ≡ false
      → TimeFits rt start stop e
  both_known e none completed p q known clear = cc
  both_known e (some s) none p q known clear = cc
  both_known e (some s) (some c) p q known clear = record {
    saved = s;
    completed = c;
    saved_at = p;
    completed_at = q;
    fits = clear;
  }

  check_times-eq-nil :
      (es : List Evidence) (checked : Checked)
      → (check_times rt start stop es checked).0 ≡ []
      → (check_times rt start stop es checked).1 ≡ []
      → All (TimeFits rt start stop) es × (checked.0 ≡ []) × (checked.1 ≡ [])
  unfolding check_times check_time
  check_times-eq-nil [] checked p q = (tt, p, q)
  check_times-eq-nil (e ∷ es) checked p q =
      let (rest, blocked, pending) = check_times-eq-nil es _ p q in
      let (clear, blocked') = add_if-eq-nil _ _ checked.0 blocked in
      let (known, pending') = add_if-eq-nil _ _ checked.1 pending in
      ((both_known e _ _ refl refl known clear, rest), blocked', pending')

covered-eq-true :
    (test : Coverage → Bool) (coverage : Option Coverage)
    → covered test coverage ≡ true
    → (c : Coverage) × (coverage ≡ some c) × (test c ≡ true)
covered-eq-true test none h = cc
covered-eq-true test (some c) h = (c, refl, h)

early_pending-eq-nil :
    (b : Builder) (key : JobKey) (coverage : Option Coverage) (records : List Evidence)
    (s : List String)
    → early_pending b key coverage records s ≡ []
    → (covered (λ c. c.suffix_reviewed) coverage ≡ true)
      × (any (λ e. not (has_raw_reference e)) records ≡ false)
      × (any (λ e. is_missing e.observed_at) records ≡ false)
      × (contains key.0 b.incomplete_sources ≡ false)
      × (b.unknown_source_errors ≡ false)
      × (s ≡ [])
unfolding early_pending
early_pending-eq-nil b key coverage records s h =
    let (suffix, r1) = add_if-eq-nil _ _ _ h in
    let (raw, r2) = add_if-eq-nil _ _ _ r1 in
    let (seen, r3) = add_if-eq-nil _ _ _ r2 in
    let (_, r4) = add_if-eq-nil _ _ _ r3 in
    let (partial, r5) = add_if-eq-nil _ _ _ r4 in
    let (errors, r6) = add_if-eq-nil _ _ _ r5 in
    (ground (arith, suffix), raw, seen, ground (arith, partial), errors, r6)

late_pending-eq-nil :
    (synced : ℕ) (coverage : Option Coverage) (records : List Evidence) (action : Option Job)
    (s : List String)
    → late_pending synced coverage records action s ≡ []
    → (is_complete coverage (start_of action) (stop_of action) ≡ true)
      × (is_empty_list records ≡ false)
      × (any (λ e. is_after synced e.observed_at) records ≡ false)
      × (s ≡ [])
unfolding late_pending
late_pending-eq-nil synced coverage records action s h =
    let (some_record, r1) = add_if-eq-nil _ _ _ h in
    let (complete, r2) = add_if-eq-nil _ _ _ r1 in
    let (_, r3) = add_if-eq-nil _ _ _ r2 in
    let (past, r4) = add_if-eq-nil _ _ _ r3 in (ground (arith, complete), some_record, past, r4)

-- All that has to hold of an action before its names are published: the ledger has no error and no
-- block that may concern it, the action is confirmed by the job runs, an attestation covers the action
-- and its suffixes, and every backup is referenced, was observed by the time of the synchronisation,
-- and lies in the time of the action.
pub record IsCertified (rt : Runtime) (b : Builder) (key : JobKey) (synced : ℕ)
    (coverage : Option Coverage) (records : List Evidence) : Type 0 where
  pub action : Job
  pub executed : (execution_check key b.jobs).0 ≡ some action
  pub confirmed : IsConfirmed key b.jobs action
  pub attestation : Coverage
  pub attested : coverage ≡ some attestation
  pub covers : complete_for attestation action.start action.stop ≡ true
  pub reviewed : attestation.suffix_reviewed ≡ true
  pub unblocked : or_default [] (lookup key b.blocked) ≡ []
  pub attributed : b.unknown_source_errors ≡ false
  pub complete_source : contains key.0 b.incomplete_sources ≡ false
  pub referenced : any (λ e. not (has_raw_reference e)) records ≡ false
  pub observed : any (λ e. is_missing e.observed_at) records ≡ false
  pub past : any (λ e. is_after synced e.observed_at) records ≡ false
  pub backed_up : is_empty_list records ≡ false
  pub in_time : All (TimeFits rt action.start action.stop) records

module _ (rt : Runtime) (b : Builder) (key : JobKey) (synced : ℕ) (coverage : Option Coverage)
    (records : List Evidence) where
  certify :
      (action : Option Job)
      → (execution_check key b.jobs).0 ≡ action
      → (assess rt b key synced coverage records).0 ≡ []
      → (assess rt b key synced coverage records).1 ≡ []
      → IsCertified rt b key synced coverage records
  unfolding assess is_complete
  certify action same p q =
      let (complete, backed_up, past, late) = late_pending-eq-nil synced coverage records _ _ q in
      let (in_time, blocked, pending) = check_times-eq-nil rt _ _ records _ p late in
      let (suffix, raw, seen, partial, errors, pending') =
        early_pending-eq-nil b key coverage records _ pending in
      let (blocked', held) = update-eq-nil _ _ blocked in
      let (job, executed, confirmed) = execution_check-eq-nil key b.jobs blocked' pending' in
      let (c, present, reviewed) = covered-eq-true (λ c. c.suffix_reviewed) coverage suffix in
      record {
        action = job;
        executed = executed;
        confirmed = confirmed;
        attestation = c;
        attested = present;
        covers = rw (present, executed) at complete;
        reviewed = reviewed;
        unblocked = held;
        attributed = errors;
        complete_source = partial;
        referenced = raw;
        observed = seen;
        past = past;
        backed_up = backed_up;
        in_time = rw executed at in_time;
      }

-- Names are public only for the one candidate of a mapping about which there is no reason.
public_names-eq-some :
    (candidates : List Candidate) (checked : Checked) (c : Candidate)
    → public_names
        (mapping_of candidates checked.0)
        (verification_of (mapping_of candidates checked.0) checked)
        candidates
      ≡ some c
    → (candidates ≡ c ∷ []) × (checked.0 ≡ []) × (checked.1 ≡ [])
unfolding public_names mapping_of verification_of
public_names-eq-some (d ∷ []) ([], []) c h = (ap (λ x. x ∷ []) (some-injective d c h), refl, refl)
public_names-eq-some [] ([], []) c h = cc
public_names-eq-some [] (r ∷ rs, ps) c h = cc
public_names-eq-some (d ∷ []) (r ∷ rs, ps) c h = cc
public_names-eq-some (d ∷ e ∷ ds) (r ∷ rs, ps) c h = cc
public_names-eq-some [] ([], p ∷ ps) c h = cc
public_names-eq-some (d ∷ []) ([], p ∷ ps) c h = cc
public_names-eq-some (d ∷ e ∷ ds) ([], p ∷ ps) c h = cc
public_names-eq-some (d ∷ e ∷ ds) ([], []) c h = cc

abbrev part : (Candidate → String) → Option Candidate → Option String
part f o = elim o [ none ↦ none | some c ↦ some (f c) ]

public_name :
    (o : Option Candidate) (p : String)
    → elim o [ none ↦ none | some c ↦ some c.0 ] ≡ some p
    → (c : Candidate) × (o ≡ some c)
public_name none p h = cc
public_name (some c) p h = (c, refl)

-- A document that publishes a policy name publishes the three names of the action's only candidate, and
-- the action is certified.
pub document-publishes :
    (rt : Runtime) (b : Builder) (request : Request) (key : JobKey) (coverage : Option Coverage)
    (policy : String)
    → (document rt b request key coverage).policy_name ≡ some policy
    → (c : Candidate) × (distinct (map candidate (records_of b key)) ≡ c ∷ [])
      × ((document rt b request key coverage).policy_name ≡ some c.0)
      × ((document rt b request key coverage).workflow_name ≡ some c.1)
      × ((document rt b request key coverage).protection_group ≡ some c.2)
      × IsCertified rt b key (instant_of request.synced_at) coverage (records_of b key)
unfolding document
document-publishes rt b request key coverage policy h =
    let records = records_of b key in
    let checked : Checked = assess rt b key (instant_of request.synced_at) coverage records in
    let (c, public) = public_name _ policy h in
    let (only, blocked, pending) =
      public_names-eq-some (distinct (map candidate records)) checked c public in
    (
      c,
      only,
      ap (part (λ d. d.0)) public,
      ap (part (λ d. d.1)) public,
      ap (part (λ d. d.2)) public,
      certify rt b key (instant_of request.synced_at) coverage records _ refl blocked pending,
    )
