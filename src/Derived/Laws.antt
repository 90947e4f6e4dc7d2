-- ===== src/Derived/Laws.antt =====
-- The record of a job's run.
use mathlib.Core.Path.{subst}
use integrated_backup_monito.Prelude.{
  ℕ, suc, ◌+◌, ◌-◌, ◌*◌, ◌/◌, ◌≤◌, ◌<◌, leb, leb→le, arith, String, ◌≡◌, refl, ◌∙◌, false, true,
  ◌≢◌, ◌⊎◌, sym, distinct_bools, eq_iff, ◌==◌, Option, none, some, List, [], ◌∷◌, Bool-cases, inl,
  inr, contains, string_eq,
}
use integrated_backup_monito.Prelude.Int.{pos}
use integrated_backup_monito.Prelude.Text.{is_empty, lower}
use integrated_backup_monito.Value.{Value, int, null, str, Fields, Runtime, get, merge, fields}
use integrated_backup_monito.Value.Merge.{get-merge, set_over-other}
use integrated_backup_monito.Derived.{string, parse_datetime, isoformat}
use integrated_backup_monito.Derived.Networker.{
  outcome, or_date, text_or, event_of, job_run_record, run_record, run_fields, duration_seconds,
}

abbrev pub run_keys : List String
run_keys =
    "job_id" ∷ "workflow_run_key" ∷ "start_time" ∷ "end_time" ∷ "event_time" ∷ "job_run_month"
    ∷ "duration_seconds" ∷ "outcome" ∷ []

-- The first of the two texts that is not empty, or unknown.
abbrev pub IsOutcome : String → String → String → Type 0
IsOutcome normalized status result =
    ((normalized ≢ "") × (result ≡ normalized))
    ⊎ ((normalized ≡ "")
        × (((status ≢ "") × (result ≡ status)) ⊎ ((status ≡ "") × (result ≡ "unknown"))))

-- A running job's event is its start, another's is its end, or its start where it has no end.
abbrev pub IsEvent : String → Option ℕ → Option ℕ → ℕ → Type 0
IsEvent result start finish event =
    ((result ≡ "running") × (start ≡ some event))
    ⊎ ((result ≢ "running") × ((finish ≡ some event) ⊎ ((finish ≡ none) × (start ≡ some event))))

-- The whole seconds from the start to the end, None where one is missing or the end comes first.
abbrev pub IsDuration : Option ℕ → Option ℕ → Value → Type 0
IsDuration (some start) (some finish) value =
    ((n : ℕ) × (value ≡ int (pos n))
      × (start + n * 1000000 ≤ finish)
      × (finish < start + suc n * 1000000))
    ⊎ ((finish < start) × (value ≡ null))
IsDuration none finish value = value ≡ null
IsDuration (some start) none value = value ≡ null

-- The record of a run with an id, an event and an outcome.
pub record IsRun (rt : Runtime) (job entry : Fields) (start finish : Option ℕ) (event : ℕ)
    (result : String) : Type 0 where
  pub has_id : string rt (get "job_id" job) ≢ ""
  pub id : get "job_id" entry ≡ str (string rt (get "job_id" job))
  pub decided :
      IsOutcome
        (lower (string rt (get "status_normalized" job)))
        (lower (string rt (get "status" job)))
        result
  pub outcome_field : get "outcome" entry ≡ str result
  pub happened : IsEvent result start finish event
  pub event_time : get "event_time" entry ≡ isoformat rt (some event)
  pub duration : IsDuration start finish (get "duration_seconds" entry)
  pub rest : (key : String) → contains key run_keys ≡ false → get key entry ≡ get key job

not_empty : (s : String) → is_empty s ≡ false → s ≢ ""
not_empty s h e = distinct_bools (rw e at h)

is_empty-nil : (s : String) → is_empty s ≡ true → s ≡ ""
is_empty-nil String.[] h = refl
is_empty-nil (String.◌∷◌ c s) h = absurd (distinct_bools (sym h))

text_or-IsOutcome : (a b : String) → IsOutcome a b (text_or a (text_or b "unknown"))
text_or-IsOutcome a b = elim (Bool-cases (is_empty a)) [
  | inr given ↦ inl (not_empty a given, rw given refl)
  | inl blank ↦ elim (Bool-cases (is_empty b)) [
    | inr given ↦ inr (is_empty-nil a blank, inl (not_empty b given, rw (blank, given) refl))
    | inl blank_too ↦
        inr (is_empty-nil a blank, inr (is_empty-nil b blank_too, rw (blank, blank_too) refl))
  ]
]

outcome-IsOutcome :
    (rt : Runtime) (job : Fields)
    → IsOutcome
        (lower (string rt (get "status_normalized" job)))
        (lower (string rt (get "status" job)))
        (outcome rt job)
unfolding outcome
outcome-IsOutcome rt job =
    text_or-IsOutcome (lower (string rt (get "status_normalized" job)))
      (lower (string rt (get "status" job)))

or_date-cases :
    (finish start : Option ℕ) (event : ℕ)
    → or_date finish start ≡ some event
    → (finish ≡ some event) ⊎ ((finish ≡ none) × (start ≡ some event))
or_date-cases (some t) start event h = inl h
or_date-cases none start event h = inr (refl, h)

event_of-IsEvent :
    (rt : Runtime) (job : Fields) (start finish : Option ℕ) (event : ℕ)
    → event_of rt job start finish ≡ some event
    → IsEvent (outcome rt job) start finish event
event_of-IsEvent rt job start finish event h = elim (Bool-cases (outcome rt job == "running")) [
  | inl running ↦ inl ((eq_iff (outcome rt job) "running").0 running, rw running at h)
  | inr ended ↦ inr (
    (λ e. distinct_bools (sym ((eq_iff (outcome rt job) "running").1 e) ∙ ended)),
    or_date-cases finish start event (rw ended at h),
  )
]

whole_seconds : (d n : ℕ) → d / 1000000 ≡ n → (n * 1000000 ≤ d) × (d < suc n * 1000000)
whole_seconds d n h = (omega arith, omega arith)

duration_seconds-IsDuration :
    (start finish : Option ℕ) → IsDuration start finish (duration_seconds start finish)
duration_seconds-IsDuration none finish = refl
duration_seconds-IsDuration (some start) none = refl
duration_seconds-IsDuration (some start) (some finish) = elim (Bool-cases (leb start finish)) [
  | inl ordered ↦
      let bounds = whole_seconds (finish - start) ((finish - start) / 1000000) refl in
      let before = leb→le start finish ordered in
      inl (
        (finish - start) / 1000000,
        rw ordered refl,
        omega (arith, bounds.0, before),
        omega (arith, bounds.1, before),
      )
  | inr reversed ↦ inr (ground (arith, reversed), rw reversed refl)
]

module _ (rt : Runtime) (job : Fields) (start finish : Option ℕ) where
  run_entry : ℕ → Fields
  run_entry event = merge job (fields (run_fields rt job start finish event))

  run_entry-IsRun :
      (event : ℕ)
      → is_empty (string rt (get "job_id" job)) ≡ false
      → event_of rt job start finish ≡ some event
      → IsRun rt job (run_entry event) start finish event (outcome rt job)
  unfolding run_entry
  run_entry-IsRun event filled h =
      let items = run_fields rt job start finish event in
      record {
        has_id = not_empty (string rt (get "job_id" job)) filled;
        id = get-merge "job_id" job items;
        decided = outcome-IsOutcome rt job;
        outcome_field = get-merge "outcome" job items;
        happened = event_of-IsEvent rt job start finish event h;
        event_time = get-merge "event_time" job items;
        duration =
            subst (IsDuration start finish) (sym (get-merge "duration_seconds" job items))
              (duration_seconds-IsDuration start finish);
        rest = λ key other. get-merge key job items ∙ set_over-other key items (get key job) other;
      }

  made-IsRun :
      (event : Option ℕ) (entry : Fields)
      → event_of rt job start finish ≡ event
      → run_record rt job start finish event ≡ some entry
      → (t : ℕ) × (result : String) × IsRun rt job entry start finish t result
  unfolding run_entry
  made-IsRun none entry h made = absurd (none_made entry made)
    where
      none_made : (made_entry : Fields) → none ≡ some made_entry → ⊥
      none_made made_entry e = cc
  made-IsRun (some t) entry h made = elim (Bool-cases (is_empty (string rt (get "job_id" job)))) [
    | inl blank ↦ absurd (none_run (rw blank at made))
    | inr filled ↦ (
      t,
      outcome rt job,
      subst (λ e. IsRun rt job e start finish t (outcome rt job)) (some_entry (rw filled at made))
          (run_entry-IsRun t filled h),
    )
  ]
    where
      none_run : none ≡ some entry → ⊥
      none_run e = cc

      some_entry : some (run_entry t) ≡ some entry → run_entry t ≡ entry
      some_entry e = cc

-- A job that has a run's record has a job id that is not blank, and the record has that id, stripped. Its
-- outcome is the job's normalised status, or its status where that is empty, in small letters, or
-- unknown where both are empty. Its event time is that of the start if the outcome is running, else of
-- the end, or of the start where there is no end. Its duration is the whole seconds from start to end,
-- or None where one is missing or the end comes first. Under every key that is none of the eight that
-- are set the record has what the job has.
pub job_run_record-IsRun :
    (rt : Runtime) (job entry : Fields)
    → job_run_record rt job ≡ some entry
    → (event : ℕ) × (result : String) × IsRun rt job entry
        (parse_datetime rt (get "start_time" job))
        (parse_datetime rt (get "end_time" job))
        event
        result
unfolding job_run_record
job_run_record-IsRun rt job entry made =
    made-IsRun rt job (parse_datetime rt (get "start_time" job))
      (parse_datetime rt (get "end_time" job))
      (event_of rt job (parse_datetime rt (get "start_time" job))
        (parse_datetime rt (get "end_time" job)))
      entry refl made
