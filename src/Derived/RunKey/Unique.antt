-- ===== src/Derived/RunKey/Unique.antt =====
-- What a workflow run's key tells of its job.
use Prim.Native.Char.{Char}
use Prim.Native.String.{String, [], ◌∷◌, ◌++◌ as ◌<>◌}
use text.Mathlib.TextLemmas.{nil-append, cons-append}
use mathlib.Core.Path.{◌≡◌, refl, sym, ap, ◌∙◌}
use mathlib.Core.Logic.{◌≢◌, inl, inr}
use mathlib.Core.Bool.{Bool, true, false, ◌||◌}
use mathlib.Core.Option.{Option, none, some}
use integrated_backup_monito.Prelude.{if◌then◌else◌, arith, Bool-cases}
use integrated_backup_monito.Prelude.Text.{lower, is_empty, is_space, any_char}
use integrated_backup_monito.Value.{Fields, Runtime, get}
use integrated_backup_monito.Derived.{string}
use integrated_backup_monito.Derived.RunKey.{
  is_colon, run_source, root_field, root_identity, joined_key, workflow_run_key,
}

head : String → Char
head [] = "x"
head (c ∷ s) = c

tail : String → String
tail [] = []
tail (c ∷ s) = s

begins_with_colon : String → Bool
begins_with_colon [] = false
begins_with_colon (c ∷ s) = is_colon c

no_colon_after :
    (c : Char) (s : String) → any_char is_colon (c ∷ s) ≡ false → any_char is_colon s ≡ false
no_colon_after c s h = elim (Bool-cases (is_colon c)) [
  | inl colon ↦ absurd (ground (arith, h, colon))
  | inr other ↦ ground (arith, h, other)
]

colon_first : (c : Char) (s : String) → any_char is_colon (c ∷ s) ≡ false → true ≡ is_colon c → ⊥
colon_first c s h e = ground (arith, h, e)

cons_eq : (c d : Char) (s t : String) → c ≡ d → s ≡ t → c ∷ s ≡ d ∷ t
cons_eq c d s t e f = cc

key-cases :
    (source identity : Option String)
    → joined_key source identity ≢ ""
    → (s : String) × (x : String) × (source ≡ some s) × (identity ≡ some x)
key-cases none identity h = absurd (h refl)
key-cases (some s) none h = absurd (h refl)
key-cases (some s) (some x) h = (s, x, refl, refl)

abbrev colon : Char
colon = ":"

colon-append : (x : String) → ":" <> x ≡ colon ∷ x
colon-append x = cons-append colon [] x ∙ ap (λ t. colon ∷ t) (nil-append x)

joined :
    (source identity : Option String) (s x : String)
    → source ≡ some s
    → identity ≡ some x
    → joined_key source identity ≡ s <> (colon ∷ x)
joined source identity s x h k = rw (h, k) (ap (λ t. s <> t) (colon-append x))

checked_is :
    (wrong : Bool) (s source : String) → (if wrong then none else some s) ≡ some source → source ≡ s
checked_is true s source h = cc
checked_is false s source h = cc

checked-no_colon :
    (s source : String)
    → (if is_empty s || any_char is_colon s || any_char is_space s then none else some s)
      ≡ some source
    → any_char is_colon source ≡ false
checked-no_colon s source h = elim (Bool-cases (any_char is_colon s)) [
  | inl colon ↦ absurd (ground (arith, h, colon))
  | inr clean ↦
      ap (any_char is_colon) (
        checked_is (is_empty s || false || any_char is_space s) s source (ground (arith, h, clean)))
      ∙ clean
]

colon-cancel :
    (s t x y : String)
    → any_char is_colon s ≡ false
    → any_char is_colon t ≡ false
    → s <> (colon ∷ x) ≡ t <> (colon ∷ y)
    → (s ≡ t) × (x ≡ y)
unfolding head tail begins_with_colon
colon-cancel [] [] x y h k e =
    (refl, ap tail (sym (nil-append (colon ∷ x)) ∙ (e ∙ nil-append (colon ∷ y))))
colon-cancel [] (d ∷ t) x y h k e = absurd (
    colon_first d t k
      (ap begins_with_colon (sym (nil-append (colon ∷ x)) ∙ (e ∙ cons-append d t (colon ∷ y)))))
colon-cancel (c ∷ s) [] x y h k e = absurd (
    colon_first c s h
      (ap begins_with_colon (sym (nil-append (colon ∷ y)) ∙ (sym e ∙ cons-append c s (colon ∷ x)))))
colon-cancel (c ∷ s) (d ∷ t) x y h k e =
    let flat : c ∷ (s <> (colon ∷ x)) ≡ d ∷ (t <> (colon ∷ y)) =
      sym (cons-append c s (colon ∷ x)) ∙ (e ∙ cons-append d t (colon ∷ y)) in
    let rest = colon-cancel s t x y (no_colon_after c s h) (no_colon_after d t k) (ap tail flat) in
    (cons_eq c d s t (ap head flat) rest.0, rest.1)

run_source-no_colon :
    (rt : Runtime) (job : Fields) (source : String)
    → run_source rt job ≡ some source
    → any_char is_colon source ≡ false
unfolding run_source
run_source-no_colon rt job source h =
    checked-no_colon (lower (string rt (get "source_networker" job))) source h

-- Two jobs with the same key that is no empty text have the same source, which the key begins with, and
-- the same positive decimal number of a run after it.
pub workflow_run_key_unique :
    (rt : Runtime) (a b : Fields)
    → workflow_run_key rt a ≢ ""
    → workflow_run_key rt a ≡ workflow_run_key rt b
    → (source : String) × (identity : String) × (run_source rt a ≡ some source)
      × (run_source rt b ≡ some source)
      × (root_identity rt a (root_field (lower (string rt (get "type" a)))) ≡ some identity)
      × (root_identity rt b (root_field (lower (string rt (get "type" b)))) ≡ some identity)
unfolding workflow_run_key
workflow_run_key_unique rt a b some_key same =
    let identity_of : Fields → Option String =
      λ job. root_identity rt job (root_field (lower (string rt (get "type" job)))) in
    let (s, x, sa, xa) = key-cases (run_source rt a) (identity_of a) some_key in
    let (t, y, tb, yb) =
      key-cases (run_source rt b) (identity_of b) (λ none_b. some_key (same ∙ none_b)) in
    let both =
      colon-cancel s t x y (run_source-no_colon rt a s sa) (run_source-no_colon rt b t tb) (
        sym (joined (run_source rt a) (identity_of a) s x sa xa)
        ∙ (same ∙ joined (run_source rt b) (identity_of b) t y tb yb)) in
    (s, x, sa, tb ∙ ap some (sym both.0), xa, yb ∙ ap some (sym both.1))
