-- ===== src/Prelude/Equality.antt =====
-- Python's `==` on the types that the program compares, as a class.
use Prim.Native.Nat.{ℕ}
use Prim.Native.String.{String}
use mathlib.Core.Path.{◌≡◌, refl, ap, sym, ◌∙◌}
use mathlib.Core.Logic.{◌↔◌, inl, inr}
use mathlib.Core.Bool.{Bool, true, false, ◌&&◌, not}
use mathlib.Core.Option.{Option, none, some}
use mathlib.Core.List.{List, [], ◌∷◌}
use native.Mathlib.Omega.{arith}
use text.Mathlib.Text.{◌==◌ as str_eq}
use text.Mathlib.TextEquality.{eq_iff}
use integrated_backup_monito.Prelude.Tests.{nat_beq, nat_beq_iff, Bool-cases, distinct_bools}

pub record Eq {ℓ} (A : Type ℓ) : Type ℓ where
  pub same : A → A → Bool
  pub same_iff : (a b : A) → (same a b ≡ true) ↔ (a ≡ b)

-- `a == b`
infix 50 ◌==◌
abbrev pub ◌==◌ {ℓ} : {A : Type ℓ} ⦃test : Eq A⦄ (left right : A) → Bool
◌==◌ ⦃test⦄ left right = test.same left right

instance abbrev pub nat_eq : Eq ℕ
nat_eq = record { same = nat_beq; same_iff = nat_beq_iff }

instance abbrev pub string_eq : Eq String
string_eq = record { same = str_eq; same_iff = eq_iff }

module _ {ℓ} {A : Type ℓ} ⦃e : Eq A⦄ where
  abbrev pub option_beq : Option A → Option A → Bool
  option_beq none none = true
  option_beq none (some b) = false
  option_beq (some a) none = false
  option_beq (some a) (some b) = a == b

  pub option_beq_iff : (a b : Option A) → (option_beq a b ≡ true) ↔ (a ≡ b)
  option_beq_iff none none = (λ _. refl, λ _. refl)
  option_beq_iff none (some b) = (λ h. cc, λ h. cc)
  option_beq_iff (some a) none = (λ h. cc, λ h. cc)
  option_beq_iff (some a) (some b) =
      (λ h. ap some ((e.same_iff a b).0 h), λ h. ground (arith, e.same_iff a b))

  abbrev pub contains : A → List A → Bool
  contains a [] = false
  contains a (x ∷ xs) = elim (a == x) [ true ↦ true | false ↦ contains a xs ]

instance abbrev pub option_eq {ℓ} : {A : Type ℓ} ⦃e : Eq A⦄ → Eq (Option A)
option_eq = record { same = option_beq; same_iff = option_beq_iff }

abbrev pub bool_beq : Bool → Bool → Bool
bool_beq true b = b
bool_beq false true = false
bool_beq false false = true

pub bool_beq_iff : (a b : Bool) → (bool_beq a b ≡ true) ↔ (a ≡ b)
bool_beq_iff true b = ground arith
bool_beq_iff false b = ground arith

instance abbrev pub bool_eq : Eq Bool
bool_eq = record { same = bool_beq; same_iff = bool_beq_iff }

module _ {ℓ κ} {A : Type ℓ} {B : Type κ} ⦃ea : Eq A⦄ ⦃eb : Eq B⦄ where
  abbrev pub pair_beq : A × B → A × B → Bool
  pair_beq p q = (p.0 == q.0) && (p.1 == q.1)

  pub pair_beq_iff : (p q : A × B) → (pair_beq p q ≡ true) ↔ (p ≡ q)
  pair_beq_iff (a, b) (c, d) = ground (arith, ea.same_iff a c, eb.same_iff b d)

instance abbrev pub pair_eq {ℓ κ} : {A : Type ℓ} {B : Type κ} ⦃ea : Eq A⦄ ⦃eb : Eq B⦄ → Eq (A × B)
pair_eq = record { same = pair_beq; same_iff = pair_beq_iff }

module _ {ℓ κ μ} {A : Type ℓ} {B : Type κ} {C : Type μ} ⦃ea : Eq A⦄ ⦃eb : Eq B⦄ ⦃ec : Eq C⦄ where
  abbrev pub triple_beq : A × B × C → A × B × C → Bool
  triple_beq p q = (p.0 == q.0) && (p.1 == q.1) && (p.2 == q.2)

  pub triple_beq_iff : (p q : A × B × C) → (triple_beq p q ≡ true) ↔ (p ≡ q)
  triple_beq_iff (a, b, c) (d, e, f) =
      ground (arith, ea.same_iff a d, eb.same_iff b e, ec.same_iff c f)

instance abbrev pub triple_eq {ℓ κ μ} :
    {A : Type ℓ} {B : Type κ} {C : Type μ} ⦃ea : Eq A⦄ ⦃eb : Eq B⦄ ⦃ec : Eq C⦄ → Eq (A × B × C)
triple_eq = record { same = triple_beq; same_iff = triple_beq_iff }

pub eq_of_not_ne {ℓ} : {A : Type ℓ} ⦃e : Eq A⦄ (a b : A) → not (a == b) ≡ false → a ≡ b
eq_of_not_ne ⦃e⦄ a b h = ground (arith, e.same_iff a b)

-- A text is not both of two different ones.
pub other_text : (a b text : String) → (a == b) ≡ false → (text == b) ≡ true → (text == a) ≡ false
other_text a b text differ here = elim (Bool-cases (text == a)) [
  | inl same ↦ absurd (
      distinct_bools
        (sym ((eq_iff a b).1 (sym ((eq_iff text a).0 same) ∙ (eq_iff text b).0 here)) ∙ differ))
  | inr other ↦ other
]
