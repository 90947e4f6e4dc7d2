-- ===== src/Client/Retry.antt =====
-- apps/clients/networker_rest_client.py, `_get_json`: a request and its repetitions.
use integrated_backup_monito.Prelude.{
  ℕ, zero, suc, ◌^◌, ◌-◌, String, Bool, ◌&&◌, not, List, [], ◌∷◌, nat_beq, ltb, if◌then◌else◌,
}

-- How one attempt ends: a payload, a status that `raise_for_status` refuses, a timeout, or another
-- exception.
pub data Attempt {ℓ} (A : Type ℓ) : Type ℓ where
  answered : A → Attempt A
  http_status : ℕ → Attempt A
  timed_out : Attempt A
  broken : String → Attempt A

-- How the call ends. `exhausted` is the `RuntimeError` under the loop.
pub data Outcome {ℓ} (A : Type ℓ) : Type ℓ where
  returned : A → Outcome A
  raised : Attempt A → Outcome A
  exhausted : Outcome A

-- The sleeps between the attempts, in seconds, and the end.
pub record Run {ℓ} (A : Type ℓ) : Type ℓ where
  pub attempts : ℕ
  pub sleeps : List ℕ
  pub outcome : Outcome A

-- `status_code != 429 and status_code < 500` raises at once.
unfoldable pub is_final : ℕ → Bool
is_final status_code = not (nat_beq status_code 429) && ltb status_code 500

module _ {ℓ} {A : Type ℓ} where
  abbrev pub repeats : Attempt A → Bool
  unfolding is_final
  repeats (answered a) = Bool.false
  repeats (http_status status_code) = not (is_final status_code)
  repeats timed_out = Bool.true
  repeats (broken error) = Bool.false

  abbrev pub ended : Attempt A → Outcome A
  ended (answered a) = returned a
  ended failed = raised failed

  abbrev pub slept : ℕ → Run A → Run A
  slept seconds run = record {
    attempts = suc run.attempts;
    sleeps = seconds ∷ run.sleeps;
    outcome = run.outcome;
  }

  -- The loop from an attempt on, with the attempts that are left.
  unfoldable pub loop : (ℕ → Attempt A) → ℕ → ℕ → Run A
  unfolding is_final
  loop response attempt zero = record { attempts = 0; sleeps = []; outcome = exhausted }
  loop response attempt (suc left) =
      let rest = loop response (suc attempt) left in
      if repeats (response attempt) && not (nat_beq left 0)
      then slept (2 ^ (attempt - 1)) rest
      else record { attempts = 1; sleeps = []; outcome = ended (response attempt) }

  unfoldable pub get_json : (ℕ → Attempt A) → ℕ → Run A
  unfolding loop
  get_json response retries = loop response 1 (suc retries)
