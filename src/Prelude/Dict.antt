-- ===== src/Prelude/Dict.antt =====
-- Python's dicts in the order of insertion, and its sets as lists of different members.
use mathlib.Core.Path.{◌≡◌, refl}
use mathlib.Core.Bool.{Bool, true, false, not}
use mathlib.Core.Option.{Option, none, some}
use mathlib.Core.List.{List, [], ◌∷◌, ◌++◌}
use mathlib.Core.Logic.{◌≢◌}
use native.Mathlib.Omega.{arith}
use integrated_backup_monito.Prelude.Tests.{if◌then◌else◌}
use integrated_backup_monito.Prelude.Equality.{Eq, ◌==◌, contains, string_eq}
use integrated_backup_monito.Prelude.Text.{str_lt}
use Prim.Native.String.{String}
use integrated_backup_monito.Prelude.Lists.{any}

abbrev pub Dict {ℓ κ} : Type ℓ → Type κ → Type (ℓ ⊔ κ)
Dict K V = List (K × V)

module _ {ℓ κ} {K : Type ℓ} {V : Type κ} ⦃e : Eq K⦄ where
  -- `d.get(k)`
  unfoldable pub lookup : K → Dict K V → Option V
  lookup k [] = none
  lookup k ((j, v) ∷ d) = if k == j then some v else lookup k d

  -- `d[k] = v`
  unfoldable pub insert : K → V → Dict K V → Dict K V
  insert k v [] = (k, v) ∷ []
  insert k v ((j, w) ∷ d) = if k == j then (j, v) ∷ d else (j, w) ∷ insert k v d

  pub lookup-nil : (k : K) → lookup k [] ≡ none
  unfolding lookup
  lookup-nil k = refl

  pub lookup-insert :
      (j k : K) (v : V) (d : Dict K V)
      → lookup j (insert k v d) ≡ (if j == k then some v else lookup j d)
  unfolding lookup insert
  lookup-insert j k v [] = refl
  lookup-insert j k v ((i, w) ∷ d) =
      ground (arith, e.same_iff j k, e.same_iff k i, e.same_iff j i, lookup-insert j k v d)

-- `d.get(k, default)`
abbrev pub or_default {ℓ} : {A : Type ℓ} → A → Option A → A
or_default a none = a
or_default a (some b) = b

unfoldable pub values {ℓ κ} : {K : Type ℓ} {V : Type κ} → Dict K V → List V
values [] = []
values ((k, v) ∷ d) = v ∷ values d

unfoldable pub keys {ℓ κ} : {K : Type ℓ} {V : Type κ} → Dict K V → List K
keys [] = []
keys ((k, v) ∷ d) = k ∷ keys d

module _ {ℓ} {A : Type ℓ} ⦃e : Eq A⦄ where
  -- `s.add(a)`
  unfoldable pub add : A → List A → List A
  add a s = if contains a s then s else s ++ a ∷ []

  -- `s.update(t)`, `s | t`
  unfoldable pub update : List A → List A → List A
  update s [] = s
  update s (a ∷ t) = update (add a s) t

  -- `if test: s.add(a)`
  unfoldable pub add_if : Bool → A → List A → List A
  add_if test a s = if test then add a s else s

  -- `len(set(values)) > 1`
  unfoldable pub several : List A → Bool
  several [] = false
  several (a ∷ s) = any (λ b. not (a == b)) s

  add-ne-nil : (a : A) (s : List A) → add a s ≢ []
  unfolding add
  add-ne-nil a [] h = cc
  add-ne-nil a (b ∷ s) h = ground arith

  -- A set is empty only if nothing was added.
  pub add_if-eq-nil :
      (test : Bool) (a : A) (s : List A) → add_if test a s ≡ [] → (test ≡ false) × (s ≡ [])
  unfolding add_if
  add_if-eq-nil true a s h = absurd (add-ne-nil a s h)
  add_if-eq-nil false a s h = (refl, h)

  pub update-eq-nil : (s t : List A) → update s t ≡ [] → (s ≡ []) × (t ≡ [])
  unfolding update
  update-eq-nil s [] h = (h, refl)
  update-eq-nil s (a ∷ t) h = absurd (add-ne-nil a s (update-eq-nil (add a s) t h).0)

-- `sorted(set(texts))`
unfoldable pub insert_sorted : String → List String → List String
insert_sorted s [] = s ∷ []
insert_sorted s (t ∷ ts) =
    let further = t ∷ insert_sorted s ts in
    if s == t then t ∷ ts else if str_lt s t then s ∷ t ∷ ts else further

unfoldable pub sorted_set : List String → List String
unfolding insert_sorted
sorted_set [] = []
sorted_set (s ∷ ss) = insert_sorted s (sorted_set ss)
