-- ===== src/Client/Laws.antt =====
-- How often `_get_json` asks, how long it waits, and what it ends with.
use native.Mathlib.Omega.{pow_step}
use integrated_backup_monito.Prelude.{
  ◌⊎◌, ℕ, zero, suc, ◌+◌, ◌-◌, ◌^◌, ◌≤◌, ◌<◌, ◌≡◌, refl, sym, ◌∙◌, true, false, ◌&&◌, not, List, [],
  ◌∷◌, ap, nat_beq, arith, Bool-cases, inl, inr,
}
use integrated_backup_monito.Client.Retry.{Attempt, Run, repeats, ended, slept, loop, get_json}

abbrev pub total : List ℕ → ℕ
total [] = 0
total (n ∷ ns) = n + total ns

-- The end of the attempts from `first` on, of which `left` are allowed.
pub record IsEnd {ℓ} {A : Type ℓ} (response : ℕ → Attempt A) (first left : ℕ) (run : Run A)
    : Type ℓ where
  pub some_attempt : 1 ≤ run.attempts
  pub at_most : run.attempts ≤ left
  pub last : run.outcome ≡ ended (response (first + run.attempts - 1))
  pub before : (i : ℕ) → i + 1 < run.attempts → repeats (response (first + i)) ≡ true
  pub gives_up : run.attempts < left → repeats (response (first + run.attempts - 1)) ≡ false
  pub waited : total run.sleeps + 2 ^ (first - 1) ≡ 2 ^ (first + run.attempts - 2)

doubled : (first : ℕ) → 1 ≤ first → first - 1 ≡ first + 1 - 2
doubled first h = omega arith

next_doubled : (first : ℕ) → 1 ≤ first → suc first - 1 ≡ suc (first - 1)
next_doubled first h = omega arith

next_power : (first n : ℕ) → suc first + n - 2 ≡ first + suc n - 2
next_power first n = omega arith

zero_after : (first i : ℕ) → i ≡ 0 → first + i ≡ first
zero_after first i e = omega arith

suc_after : (first i j : ℕ) → i ≡ suc j → first + i ≡ suc first + j
suc_after first i j e = omega arith

Nat-cases : (i : ℕ) → (i ≡ 0) ⊎ ((j : ℕ) × (i ≡ suc j))
Nat-cases zero = inl refl
Nat-cases (suc j) = inr (j, refl)

module _ {ℓ} {A : Type ℓ} (response : ℕ → Attempt A) where
  at_once :
      (first left : ℕ)
      → 1 ≤ first
      → (repeats (response first) && not (nat_beq left 0)) ≡ false
      → IsEnd response first
          (suc left)
          (record { attempts = 1; sleeps = []; outcome = ended (response first) })
  at_once first left h stop =
      let here : first + 1 - 1 ≡ first = omega arith in
      record {
        some_attempt = omega arith;
        at_most = omega arith;
        last = ap (λ n. ended (response n)) (sym here);
        before = λ i k. absurd (omega (arith, k));
        gives_up = λ k. ap (λ n. repeats (response n)) here ∙ ground (arith, k, stop);
        waited = omega (arith, ap (λ n. 2 ^ n) (doubled first h));
      }

  again :
      (first left : ℕ) (run : Run A)
      → 1 ≤ first
      → repeats (response first) ≡ true
      → IsEnd response (suc first) left run
      → IsEnd response first (suc left) (slept (2 ^ (first - 1)) run)
  again first left run h repeated rest =
      let here : suc first + run.attempts - 1 ≡ first + suc run.attempts - 1 = omega arith in
      record {
        some_attempt = omega arith;
        at_most = omega (arith, rest.at_most);
        last = rest.last ∙ ap (λ n. ended (response n)) here;
        before = λ i k. after i k (Nat-cases i);
        gives_up =
            λ k. ap (λ n. repeats (response n)) (sym here) ∙ rest.gives_up (omega (arith, k));
        waited = omega (
          arith,
          rest.waited,
          pow_step 2 (first - 1),
          ap (λ n. 2 ^ n) (next_doubled first h),
          ap (λ n. 2 ^ n) (next_power first run.attempts),
        );
      }
    where
      after :
          (i : ℕ)
          → i + 1 < suc run.attempts
          → (i ≡ 0) ⊎ ((j : ℕ) × (i ≡ suc j))
          → repeats (response (first + i)) ≡ true
      after i k (inl none_before) =
          ap (λ n. repeats (response n)) (zero_after first i none_before) ∙ repeated
      after i k (inr (j, e)) =
          ap (λ n. repeats (response n)) (suc_after first i j e)
          ∙ rest.before j (omega (arith, k, e))

  loop-IsEnd :
      (left first : ℕ)
      → 1 ≤ first
      → IsEnd response first (suc left) (loop response first (suc left))
  unfolding loop
  loop-IsEnd zero first h = elim (Bool-cases (repeats (response first) && not (nat_beq 0 0))) [
    | inl go ↦ absurd (ground (arith, go))
    | inr stop ↦ rw stop (at_once first 0 h stop)
  ]
  loop-IsEnd (suc left) first h =
      elim (Bool-cases (repeats (response first) && not (nat_beq (suc left) 0))) [
        | inl go ↦ rw go (
            again first (suc left) (loop response (suc first) (suc left)) h (ground (arith, go))
              (loop-IsEnd left (suc first) (omega arith)))
        | inr stop ↦ rw stop (at_once first (suc left) h stop)
      ]

  -- `_get_json` always ends, and not under its loop: it asks at least once and at most once more than
  -- there are retries; its end is that of its last attempt; every earlier attempt was a timeout, a 429 or
  -- a status from 500 on; it stops before the last retry only at an attempt that is none of these; and
  -- the seconds it slept are one less than two to the power of the repetitions.
  pub get_json-IsEnd : (retries : ℕ) → IsEnd response 1 (suc retries) (get_json response retries)
  unfolding get_json
  get_json-IsEnd retries = loop-IsEnd retries 1 (omega arith)
