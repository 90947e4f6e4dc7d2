-- ===== src/Config/Defaults.antt =====
-- Schedules that are configured in part.
use integrated_backup_monito.Prelude.Chain.{bind-some}
use integrated_backup_monito.Prelude.{
  ℕ, suc, ◌≤◌, ◌<◌, String, ◌≡◌, refl, ap, sym, ◌∙◌, Option, none, some, string_eq, arith,
  Bool-cases, inl, inr,
}
use integrated_backup_monito.Prelude.Int.{ℤ, pos, pos_part, leb_ℤ}
use integrated_backup_monito.Value.{Value, int, obj, Fields, find, get_or}
use integrated_backup_monito.Schedule.{ScheduleConfig, skip_reason as schedule_skip_reason}
use integrated_backup_monito.Schedule.Errors.{skip_reason-none_iff}
use integrated_backup_monito.Config.Collector.{default_minute_offset}
use integrated_backup_monito.Config.Parse.{Loader, fitting, schedule_from_mapping}

or_given : Value → Option Value → Value
or_given otherwise found = elim found [ none ↦ otherwise | some v ↦ v ]

get_or-missing :
    (key : String) (otherwise : Value) (fs : Fields)
    → find key fs ≡ none
    → get_or key otherwise fs ≡ otherwise
unfolding or_given
get_or-missing key otherwise fs h = ap (or_given otherwise) h

some_eq {ℓ} : {A : Type ℓ} (a b : A) → some a ≡ some b → a ≡ b
some_eq a b h = cc

abbrev made_of : ℤ → ℤ → ℤ → ScheduleConfig
made_of n o t = record {
  interval_minutes = n;
  minute_offset = o;
  second = t;
  legacy_schedule_second = none;
}

parts :
    (n o t : ℤ) (s : ScheduleConfig)
    → some (made_of n o t) ≡ some s
    → (s.interval_minutes ≡ n) × (s.minute_offset ≡ o) × (s.second ≡ t)
parts n o t s h =
    let e = sym (some_eq (made_of n o t) s h) in
    (ap (λ r. r.interval_minutes) e, ap (λ r. r.minute_offset) e, ap (λ r. r.second) e)

-- The schedule of a mapping that names neither an offset nor a second.
parsed-fitting :
    (load : Loader) (raw : Fields) (target_type : String) (interval second : ℤ) (s : ScheduleConfig)
    → find "minute_offset" raw ≡ none
    → find "second" raw ≡ none
    → ((n : ℤ) → load.to_int (int n) ≡ some n)
    → schedule_from_mapping load (obj raw) target_type interval second ≡ some s
    → (offset : ℤ) × (default_minute_offset target_type ≡ some offset)
      × (s.minute_offset ≡ fitting s.interval_minutes offset)
      × (s.second ≡ second)
unfolding schedule_from_mapping
parsed-fitting load raw target_type interval second s no_offset no_second same h =
    let (n, e1, h1) =
      bind-some (load.to_int (get_or "interval_minutes" (int interval) raw)) _ s h in
    let (offset, e2, h2) = bind-some (default_minute_offset target_type) _ s h1 in
    let (o, e3, h3) =
      bind-some (load.to_int (get_or "minute_offset" (int (fitting n offset)) raw)) _ s h2 in
    let (t, e4, h4) = bind-some (load.to_int (get_or "second" (int second) raw)) _ s h3 in
    let read : o ≡ fitting n offset = some_eq o (fitting n offset) (
      sym e3
      ∙ (ap load.to_int (get_or-missing "minute_offset" (int (fitting n offset)) raw no_offset)
          ∙ same (fitting n offset))) in
    let read_second : t ≡ second = some_eq t second (
      sym e4
      ∙ (ap load.to_int (get_or-missing "second" (int second) raw no_second) ∙ same second)) in
    let (from_interval, from_offset, from_second) = parts n o t s h4 in
    (
      offset,
      e2,
      from_offset ∙ (read ∙ ap (λ i. fitting i offset) (sym from_interval)),
      from_second ∙ read_second,
    )

known_offset :
    (target_type : String) (offset : ℤ)
    → default_minute_offset target_type ≡ some offset
    → (n : ℕ) × (offset ≡ pos n)
unfolding default_minute_offset
known_offset target_type offset h = (pos_part offset, ground (arith, h))

fitted : (n o : ℕ) → (m : ℕ) × (fitting (pos (suc n)) (pos o) ≡ pos m) × (m < suc n)
fitted n o = elim (Bool-cases (leb_ℤ (pos (suc n)) (pos o))) [
  | inl late ↦ (0, rw late refl, omega arith)
  | inr early ↦ (o, rw early refl, ground (arith, early))
]

-- A schedule that a mapping configures with an interval of a minute or more, and with neither an offset
-- nor a second, passes the check whatever the type of the collector is: the type's offset gives way to 0
-- where it does not fit. `int` of an integer is that integer, and the default second is one of 30.
pub schedule_from_mapping-passes :
    (load : Loader) (raw : Fields) (target_type : String) (interval : ℤ) (second n : ℕ)
    (s : ScheduleConfig)
    → find "minute_offset" raw ≡ none
    → find "second" raw ≡ none
    → ((k : ℤ) → load.to_int (int k) ≡ some k)
    → second ≤ 30
    → schedule_from_mapping load (obj raw) target_type interval (pos second) ≡ some s
    → s.interval_minutes ≡ pos (suc n)
    → schedule_skip_reason s ≡ none
schedule_from_mapping-passes load raw target_type interval second n s no_offset no_second same few h
      i =
    let (offset, known, minute, t) =
      parsed-fitting load raw target_type interval (pos second) s no_offset no_second same h in
    let (o, e) = known_offset target_type offset known in
    let (m, fits, early) = fitted n o in
    (skip_reason-none_iff s).1 (
      suc n,
      m,
      second,
      i,
      minute ∙ (ap (λ k. fitting k offset) i ∙ (ap (fitting (pos (suc n))) e ∙ fits)),
      t,
      early,
      omega (arith, few),
    )
