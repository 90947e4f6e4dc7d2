-- ===== src/Lookup/Jobs/Choice.antt =====
-- What `execution_check` has found of an action about which it has no reason.
use mathlib.Core.Bool.{false≢true}
use integrated_backup_monito.Prelude.{
  sym, ap, ◌⊎◌, ◌∙◌, String, ◌≡◌, refl, true, false, Option, none, some, List, [], ◌∷◌, string_eq,
  option_eq, All, any, arith, eq_of_not_ne, pair_eq, Bool-cases, inl, inr,
}
use integrated_backup_monito.Prelude.Dict.{lookup, or_default, values, add_if-eq-nil, update-eq-nil}
use integrated_backup_monito.Lookup.Jobs.{
  Job, JobKey, Jobs, Checked, action_type, is_terminal, select_job, validate_save,
  workflow_conflicts, before, check_workflow, workflow_found, save_conflicts, check_action,
  check_saves, refers_to, execution_check,
}

-- The workflow job of an action: the root that the action names, chosen without conflict, of the right
-- type, and around the action in time.
pub record HasWorkflow (jobs : Jobs) (action : Job) : Type 0 where
  pub root : String
  pub workflow : Job
  pub named : action.root ≡ some root
  pub chosen : select_job (or_default [] (lookup (action.source, root) jobs)) ≡ (some workflow, [])
  pub typed : workflow.kind ≡ "workflow job"
  pub begins : before action.start workflow.start ≡ false
  pub ends : before workflow.stop action.stop ≡ false

workflow_conflicts-eq-nil :
    (action workflow : Job) (s : List String)
    → workflow_conflicts action workflow s ≡ []
    → (workflow.kind ≡ "workflow job")
      × (before action.start workflow.start ≡ false)
      × (before workflow.stop action.stop ≡ false)
      × (s ≡ [])
unfolding workflow_conflicts
workflow_conflicts-eq-nil action workflow s h =
    let (ends, rest) = add_if-eq-nil _ _ _ h in
    let (begins, rest') = add_if-eq-nil _ _ _ rest in
    let (typed, rest'') = add_if-eq-nil _ _ _ rest' in
    (eq_of_not_ne workflow.kind "workflow job" typed, begins, ends, rest'')

workflow_found-eq-nil :
    (action : Job) (own : Checked) (o : Option Job × List String)
    → workflow_found action own o ≡ ([], [])
    → (w : Job) × (o ≡ (some w, []))
      × (w.kind ≡ "workflow job")
      × (before action.start w.start ≡ false)
      × (before w.stop action.stop ≡ false)
      × (own.0 ≡ [])
      × (own.1 ≡ [])
workflow_found-eq-nil action own (none, c) h =
    absurd (false≢true (sym (add_if-eq-nil true _ _ (ap (λ (p : Checked). p.1) h)).0))
workflow_found-eq-nil action own (some w, c) h =
    let (typed, begins, ends, rest) =
      workflow_conflicts-eq-nil action w _ (ap (λ (p : Checked). p.0) h) in
    let (blocked, conflicts) = update-eq-nil own.0 c rest in
    (w, rw conflicts refl, typed, begins, ends, blocked, ap (λ (p : Checked). p.1) h)

check_workflow-eq-nil :
    (jobs : Jobs) (action : Job) (root : Option String) (own : Checked)
    → action.root ≡ root
    → check_workflow jobs action root own ≡ ([], [])
    → HasWorkflow jobs action × (own.0 ≡ []) × (own.1 ≡ [])
unfolding check_workflow
check_workflow-eq-nil jobs action none own e h =
    absurd (false≢true (sym (add_if-eq-nil true _ _ (ap (λ (p : Checked). p.1) h)).0))
check_workflow-eq-nil jobs action (some root) own e h =
    let (w, chosen, typed, begins, ends, blocked, pending) = workflow_found-eq-nil action own _ h in
    (
      record {
        root = root;
        workflow = w;
        named = e;
        chosen = chosen;
        typed = typed;
        begins = begins;
        ends = ends;
      },
      blocked,
      pending,
    )

-- The copies of a save that refers to the action agree, and the save fits the action.
abbrev pub SaveFits : JobKey → Job → List Job → Type 0
SaveFits key action copies =
    (any (refers_to key) copies ≡ false)
    ⊎ ((save : Job) × (select_job copies ≡ (some save, [])) × (validate_save save action ≡ []))

select_job-eq-none :
    (copies : List Job) (c : List String)
    → select_job copies ≡ (none, c)
    → (copies ≡ []) × (c ≡ "missing_action_job" ∷ [])
unfolding select_job
select_job-eq-none [] c e = (refl, sym (ap (λ (p : Option Job × List String). p.1) e))
select_job-eq-none (j ∷ js) c e = cc (ap (λ (p : Option Job × List String). p.0) e)

save_conflicts-eq-nil :
    (key : JobKey) (action : Job) (copies : List Job) (o : Option Job × List String)
    (s : List String)
    → select_job copies ≡ o
    → any (refers_to key) copies ≡ true
    → save_conflicts action o s ≡ []
    → SaveFits key action copies × (s ≡ [])
save_conflicts-eq-nil key action copies (none, c) s e related h =
    cc (rw (select_job-eq-none copies c e).0 at related)
save_conflicts-eq-nil key action copies (some save, c) s e related h =
    let (rest, valid) = update-eq-nil _ _ h in
    let (blocked, conflicts) = update-eq-nil s c rest in
    (inr (save, e ∙ rw conflicts refl, valid), blocked)

check_saves-eq-nil :
    (key : JobKey) (action : Job) (all_copies : List (List Job)) (s : List String)
    → check_saves key action all_copies s ≡ []
    → All (SaveFits key action) all_copies × (s ≡ [])
unfolding check_saves
check_saves-eq-nil key action [] s h = (tt, h)
check_saves-eq-nil key action (copies ∷ rest) s h =
    let (later, now) = check_saves-eq-nil key action rest _ h in
    elim (Bool-cases (any (refers_to key) copies)) [
      | inr unrelated ↦ ((inl unrelated, later), rw unrelated at now)
      | inl related ↦
          let (fits, blocked) =
            save_conflicts-eq-nil key action copies (select_job copies) s refl related
              (rw related at now) in
          ((fits, later), blocked)
    ]

-- An action with which nothing is wrong: chosen without conflict, of the action's type, ended, with its
-- workflow, and with every save that refers to it fitting.
pub record IsConfirmed (key : JobKey) (jobs : Jobs) (action : Job) : Type 0 where
  pub chosen : select_job (or_default [] (lookup key jobs)) ≡ (some action, [])
  pub typed : action.kind ≡ action_type
  pub ended : is_terminal action ≡ true
  pub workflow : HasWorkflow jobs action
  pub saves : All (SaveFits key action) (values jobs)

check_action-eq-nil :
    (key : JobKey) (jobs : Jobs) (o : Option Job × List String)
    → select_job (or_default [] (lookup key jobs)) ≡ o
    → (check_action key jobs o).1 ≡ []
    → (check_action key jobs o).2 ≡ []
    → (action : Job) × ((check_action key jobs o).0 ≡ some action) × IsConfirmed key jobs action
check_action-eq-nil key jobs (none, c) e p q =
    cc (q, (select_job-eq-none (or_default [] (lookup key jobs)) c e).1)
check_action-eq-nil key jobs (some action, c) e p q =
    let (saves, blocked) = check_saves-eq-nil key action (values jobs) _ p in
    let (workflow, own, pending) =
      check_workflow-eq-nil jobs action action.root _ refl (λ i. (blocked i, q i)) in
    let (typed, none_blocked) = add_if-eq-nil _ _ c own in
    let (ended, _) = add_if-eq-nil _ _ _ pending in
    (
      action,
      refl,
      record {
        chosen = e ∙ rw none_blocked refl;
        typed = eq_of_not_ne action.kind action_type typed;
        ended = ground (arith, ended);
        workflow = workflow;
        saves = saves;
      },
    )

-- An action about which there is no reason at all is confirmed.
pub execution_check-eq-nil :
    (key : JobKey) (jobs : Jobs)
    → (execution_check key jobs).1 ≡ []
    → (execution_check key jobs).2 ≡ []
    → (action : Job) × ((execution_check key jobs).0 ≡ some action) × IsConfirmed key jobs action
unfolding execution_check
execution_check-eq-nil key jobs p q = check_action-eq-nil key jobs _ refl p q
