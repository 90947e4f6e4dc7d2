-- ===== src/Prelude/Lists.antt =====
-- Lists measured by native numbers, and predicates on lists by recursion.
use Prim.Native.Nat.{ℕ, zero, suc, ◌+◌}
use mathlib.Core.Path.{◌≡◌, refl}
use mathlib.Core.List.{List, [], ◌∷◌, ◌++◌}
use mathlib.Core.Bool.{Bool, true, false}
use native.Mathlib.Omega.{arith}

module _ {ℓ} {A : Type ℓ} where
  abbrev pub length : List A → ℕ
  length [] = 0
  length (x ∷ xs) = suc (length xs)

  abbrev pub take : ℕ → List A → List A
  take zero xs = []
  take (suc n) [] = []
  take (suc n) (x ∷ xs) = x ∷ take n xs

  -- Each member has the property.
  abbrev pub All {κ} : (Q : A → Type κ) → List A → Type κ
  All Q (a ∷ rest) = Q a × All Q rest
  All Q [] = Unit

  -- any(test(x) for x in xs), all(test(x) for x in xs), [x for x in xs if test(x)]
  abbrev pub any : (A → Bool) → List A → Bool
  any test [] = false
  any test (x ∷ xs) = elim (test x) [ true ↦ true | false ↦ any test xs ]

  abbrev pub all : (A → Bool) → List A → Bool
  all test [] = true
  all test (x ∷ xs) = elim (test x) [ true ↦ all test xs | false ↦ false ]

  abbrev pub keep : (A → Bool) → List A → List A
  keep test [] = []
  keep test (x ∷ xs) = let rest = keep test xs in elim (test x) [ true ↦ x ∷ rest | false ↦ rest ]

  pub length-append : (xs ys : List A) → length (xs ++ ys) ≡ length xs + length ys
  length-append [] ys = omega arith
  length-append (x ∷ xs) ys = omega (arith, length-append xs ys)

  -- The property of the end is the first argument's.
  pub append-All {κ} :
      (Q : A → Type κ) (back : List A)
      → All Q back
      → (front : List A) → All Q front
      → All Q (front ++ back)
  append-All Q back later [] _ = later
  append-All Q back later (a ∷ front) (now, rest) = (now, append-All Q back later front rest)

any_of-false : (b c : Bool) → elim b [ true ↦ true | false ↦ c ] ≡ false → (b ≡ false) × (c ≡ false)
any_of-false true c h = absurd cc
any_of-false false c h = (refl, h)

-- No member passes the test.
pub any-false {ℓ} :
    {A : Type ℓ} (test : A → Bool) (a : A) (rest : List A)
    → any test (a ∷ rest) ≡ false
    → (test a ≡ false) × (any test rest ≡ false)
any-false test a rest h = any_of-false (test a) (any test rest) h

all_of-true : (b c : Bool) → b ≡ true → c ≡ true → elim b [ true ↦ c | false ↦ false ] ≡ true
all_of-true true c h k = k
all_of-true false c h k = absurd cc

-- The first member and all others pass the test.
pub all-cons {ℓ} :
    {A : Type ℓ} (test : A → Bool) (a : A) (rest : List A)
    → test a ≡ true
    → all test rest ≡ true
    → all test (a ∷ rest) ≡ true
all-cons test a rest h k = all_of-true (test a) (all test rest) h k

any_of-true : (b c : Bool) → c ≡ true → elim b [ true ↦ true | false ↦ c ] ≡ true
any_of-true true c h = refl
any_of-true false c h = h

-- A member after the first passes the test.
pub any-later {ℓ} :
    {A : Type ℓ} (test : A → Bool) (a : A) (rest : List A)
    → any test rest ≡ true
    → any test (a ∷ rest) ≡ true
any-later test a rest h = any_of-true (test a) (any test rest) h

any_here-true : (b c : Bool) → b ≡ true → elim b [ true ↦ true | false ↦ c ] ≡ true
any_here-true true c h = refl
any_here-true false c h = absurd cc

-- The first member passes the test.
pub any-here {ℓ} :
    {A : Type ℓ} (test : A → Bool) (a : A) (rest : List A)
    → test a ≡ true
    → any test (a ∷ rest) ≡ true
any-here test a rest h = any_here-true (test a) (any test rest) h

all_of-first : (b c : Bool) → elim b [ true ↦ c | false ↦ false ] ≡ true → b ≡ true
all_of-first true c h = refl
all_of-first false c h = absurd cc

pub all-first {ℓ} :
    {A : Type ℓ} (test : A → Bool) (a : A) (rest : List A)
    → all test (a ∷ rest) ≡ true
    → test a ≡ true
all-first test a rest h = all_of-first (test a) (all test rest) h
