-- ===== src/Schedule/Grid.antt =====
-- The instants at which `seconds_until_next_run` ends its waits. The slots of a day are the instants
-- day + (k * interval + offset) minutes + second, counted from the day's midnight.
use native.Mathlib.Nat.{div-add-mod', mul-add-mod_self_right, mod-eq_of_lt, mul-sub}
use native.Mathlib.Decide.{dec_le}
use integrated_backup_monito.Prelude.{
  ℕ, ◌+◌, ◌-◌, ◌*◌, ◌/◌, ◌%◌, ◌≤◌, ◌<◌, ◌≡◌, ◌≢◌, ◌∙◌, ap, Option, none, arith, leb, if◌then◌else◌,
  inl, inr, Bool-cases,
}
use integrated_backup_monito.Prelude.Int.{ℤ, pos_part}
use integrated_backup_monito.Schedule.{
  ScheduleConfig, skip_reason, minute_length, second_length, day_length, day_start, slot, target,
  wait, seconds_until_next_run, schedule, sleep,
}
use integrated_backup_monito.Schedule.Bounds.{InRange, skip_reason-InRange, wait_bounds}

-- The instant of slot `k` of the day that starts at `day`.
abbrev pub slot_at : ScheduleConfig → ℕ → ℕ → ℕ
slot_at s day k =
    day
    + (k * pos_part s.interval_minutes + pos_part s.minute_offset) * minute_length
    + pos_part s.second * second_length

-- The number of whole intervals since midnight.
abbrev pub rounds : ScheduleConfig → ℕ → ℕ
rounds s now = (now - day_start now) / minute_length / pos_part s.interval_minutes

pub mul-step_le : (k q i : ℕ) → k < q → k * i + i ≤ q * i
mul-step_le k q i h = grind arith

module _ (s : ScheduleConfig) (now : ℕ) where
  pub slot-eq-slot_at : slot s now ≡ slot_at s (day_start now) (rounds s now)
  unfolding slot
  slot-eq-slot_at =
      omega
        (arith, div-add-mod' ((now - day_start now) / minute_length) (pos_part s.interval_minutes))

  -- The first minute of the running interval is not after `now`.
  pub rounds-le : day_start now + rounds s now * pos_part s.interval_minutes * minute_length ≤ now
  unfolding day_start
  rounds-le =
      omega
        (arith, div-add-mod' ((now - day_start now) / minute_length) (pos_part s.interval_minutes))

  slot_at_mono : (k q : ℕ) → k ≤ q → slot_at s (day_start now) k ≤ slot_at s (day_start now) q
  slot_at_mono k q h = grind arith

  pub rounds-le_of_lt : InRange s → (k : ℕ) → now < slot_at s (day_start now) k → rounds s now ≤ k
  rounds-le_of_lt v k h = elim (dec_le (rounds s now) k) [
    | yes p ↦ p
    | no n ↦ absurd (
        omega (
          arith,
          rounds-le,
          mul-step_le k (rounds s now) (pos_part s.interval_minutes) (omega arith),
        ))
  ]

  target-le :
      InRange s
      → (k : ℕ) → now < slot_at s (day_start now) k
      → target s now ≤ slot_at s (day_start now) k
  unfolding target
  target-le v k h = elim (dec_le k (rounds s now)) [
    | yes p ↦ ground (
      arith,
      slot-eq-slot_at,
      slot_at_mono k (rounds s now) p,
      slot_at_mono (rounds s now) k (rounds-le_of_lt v k h),
    )
    | no n ↦ ground (
      arith,
      slot-eq-slot_at,
      slot_at_mono (rounds s now) k (rounds-le_of_lt v k h),
      mul-step_le (rounds s now) k (pos_part s.interval_minutes) (omega arith),
    )
  ]

  -- The slot at which the wait ends.
  abbrev pub chosen : ℕ
  chosen = if leb (slot s now) now then rounds s now + 1 else rounds s now

  pub target-eq-slot_at : target s now ≡ slot_at s (day_start now) chosen
  unfolding target
  target-eq-slot_at = elim (Bool-cases (leb (slot s now) now)) [
    | inl e ↦ rw e (omega (arith, slot-eq-slot_at))
    | inr e ↦ rw e slot-eq-slot_at
  ]

  pub add-wait : InRange s → now + wait s now ≡ target s now
  unfolding wait
  add-wait v = omega (arith, (wait_bounds s now v).0)

module _ (s : ScheduleConfig) (a b : Option ℤ) (now : ℕ) (passes : skip_reason s ≡ none) where
  ends_at_target :
      (w : ℕ) → seconds_until_next_run (schedule s) a b now ≡ sleep w → now + w ≡ target s now
  unfolding seconds_until_next_run
  ends_at_target w e = ground (arith, add-wait s now (skip_reason-InRange s passes))

  ends_in_slot :
      (w k : ℕ) × (seconds_until_next_run (schedule s) a b now ≡ sleep w)
      × (now + w ≡ slot_at s (day_start now) k)
      × (now < slot_at s (day_start now) k)
  unfolding seconds_until_next_run
  ends_in_slot =
      let v = skip_reason-InRange s passes in
      let e = add-wait s now v in
      let t = target-eq-slot_at s now in
      (wait s now, chosen s now, ground arith, e ∙ t, omega (arith, (wait_bounds s now v).0, e, t))

-- For a schedule that passes its check the wait ends in a slot of the day of `now`, after `now`, and
-- no slot `j` of that day that is after `now` comes earlier.
pub seconds_until_next_run_earliest :
    (s : ScheduleConfig) (a b : Option ℤ) (now j : ℕ)
    → skip_reason s ≡ none
    → now < slot_at s (day_start now) j
    → (w k : ℕ) × (seconds_until_next_run (schedule s) a b now ≡ sleep w)
      × (now + w ≡ slot_at s (day_start now) k)
      × (now < slot_at s (day_start now) k)
      × (slot_at s (day_start now) k ≤ slot_at s (day_start now) j)
seconds_until_next_run_earliest s a b now j h after =
    let v = skip_reason-InRange s h in
    let (w, k, returned, e, l) = ends_in_slot s a b now h in
    let same = ends_at_target s a b now h w returned in
    (w, k, returned, e, l, omega (arith, e, same, target-le s now v j after))

-- Where the interval divides a day, all slots of all days lie one interval apart.
slot_at-mod :
    (s : ScheduleConfig) (d c k : ℕ)
    → InRange s
    → c * pos_part s.interval_minutes ≡ 1440
    → slot_at s (d * day_length) k % (pos_part s.interval_minutes * minute_length)
      ≡ pos_part s.minute_offset * minute_length + pos_part s.second * second_length
slot_at-mod s d c k v h =
    let i = pos_part s.interval_minutes in
    let rest = pos_part s.minute_offset * minute_length + pos_part s.second * second_length in
    let e : slot_at s (d * day_length) k ≡ (d * c + k) * (i * minute_length) + rest =
      omega (arith, ap (λ (t : ℕ). d * t) h) in
    rw e (mul-add-mod_self_right (d * c + k) (i * minute_length) rest ∙ mod-eq_of_lt (omega arith))

day_start_lem : (now : ℕ) → day_start now ≡ now / day_length * day_length
unfolding day_start
day_start_lem now = omega arith

-- Where the interval divides a day, the run starts at a fixed place in the interval, whatever the day
-- and the moment at which the wait was begun.
pub seconds_until_next_run_phase :
    (s : ScheduleConfig) (a b : Option ℤ) (now c : ℕ)
    → skip_reason s ≡ none
    → c * pos_part s.interval_minutes ≡ 1440
    → (w : ℕ) × (seconds_until_next_run (schedule s) a b now ≡ sleep w)
      × ((now + w) % (pos_part s.interval_minutes * minute_length)
          ≡ pos_part s.minute_offset * minute_length + pos_part s.second * second_length)
seconds_until_next_run_phase s a b now c h divides =
    let (w, k, returned, e, _) = ends_in_slot s a b now h in
    let same = slot_at-mod s (now / day_length) c k (skip_reason-InRange s h) divides in
    (w, returned, rw (e, day_start_lem now) same)

-- The difference of two counts of intervals is a count of intervals.
count_between : (i j k : ℕ) → k * i ≡ j * i + 1440 → (k - j) * i ≡ 1440
count_between i j k h = omega (arith, mul-sub i k j)

-- Where the interval does not divide a day, no wait ends in a slot of the next day: a wait that
-- crosses midnight ends off the next day's slots, which are counted from its own midnight.
pub seconds_until_next_run_off_grid :
    (s : ScheduleConfig) (a b : Option ℤ) (now j : ℕ)
    → skip_reason s ≡ none
    → ((c : ℕ) → c * pos_part s.interval_minutes ≢ 1440)
    → (w : ℕ) × (seconds_until_next_run (schedule s) a b now ≡ sleep w)
      × (now + w ≢ slot_at s (day_start now + day_length) j)
seconds_until_next_run_off_grid s a b now j h never =
    let (w, k, returned, e, _) = ends_in_slot s a b now h in
    let i = pos_part s.interval_minutes in
    (w, returned, λ same. never (k - j) (count_between i j k (omega (arith, e, same))))
