-- ===== src/Parser/Networker/Counter/Laws.antt =====
-- What a counter and its nested form hold.
use integrated_backup_monito.Prelude.{
  ℕ, suc, ◌+◌, length, String, ◌≡◌, refl, sym, ap, ◌∙◌, false, ◌&&◌, Option, none, some, List, [],
  ◌∷◌, Eq, ◌==◌, string_eq, pair_eq, pair_beq_iff, arith, Bool-cases, inl, inr, if◌then◌else◌,
  eq_iff,
}
use integrated_backup_monito.Prelude.Dict.{
  Dict, lookup, insert, lookup-insert, lookup-nil, or_default,
}
use integrated_backup_monito.Parser.Networker.Counter.{
  add_one, count_into, counter, occurrences, Nested, nest, nest_into, nested_counts, count_at,
}

module _ {ℓ} {A : Type ℓ} ⦃e : Eq A⦄ where
  lookup-add_one :
      (a b : A) (counts : Dict A ℕ)
      → or_default 0 (lookup a (add_one b counts))
        ≡ (if a == b then 1 else 0) + or_default 0 (lookup a counts)
  unfolding add_one
  lookup-add_one a b counts =
      let set = lookup-insert a b (suc (or_default 0 (lookup b counts))) counts in
      elim (Bool-cases (a == b)) [
        | inl here ↦
            let found : lookup a (add_one b counts) ≡ some (suc (or_default 0 (lookup b counts))) =
              set ∙ rw here refl in
            let same : or_default 0 (lookup a counts) ≡ or_default 0 (lookup b counts) =
              ap (λ k. or_default 0 (lookup k counts)) ((e.same_iff a b).0 here) in
            rw here omega (arith, ap (or_default 0) found, same)
        | inr other ↦
            let kept : lookup a (add_one b counts) ≡ lookup a counts = set ∙ rw other refl in
            rw other omega (arith, ap (or_default 0) kept)
      ]

  pub lookup-count_into :
      (a : A) (keys : List A) (counts : Dict A ℕ)
      → or_default 0 (lookup a (count_into counts keys))
        ≡ occurrences a keys + or_default 0 (lookup a counts)
  unfolding count_into
  lookup-count_into a [] counts = omega arith
  lookup-count_into a (b ∷ keys) counts =
      omega (arith, lookup-count_into a keys (add_one b counts), lookup-add_one a b counts)

  -- No key stands twice.
  abbrev pub Distinct : Dict A ℕ → Type 0
  Distinct [] = Unit
  Distinct ((k, n) ∷ d) = (lookup k d ≡ none) × Distinct d

  insert-Distinct : (k : A) (n : ℕ) (d : Dict A ℕ) → Distinct d → Distinct (insert k n d)
  unfolding insert lookup
  insert-Distinct k n [] h = (refl, tt)
  insert-Distinct k n ((j, m) ∷ d) h = elim (Bool-cases (k == j)) [
    | inl here ↦ rw here h
    | inr other ↦ rw other (
      absent j k n d (ground (arith, other, e.same_iff j k, e.same_iff k j)) (h.0),
      insert-Distinct k n d h.1,
    )
  ]
    where
      absent :
          (i l : A) (c : ℕ) (rest : Dict A ℕ)
          → (i == l) ≡ false
          → lookup i rest ≡ none
          → lookup i (insert l c rest) ≡ none
      absent i l c rest differ missing = lookup-insert i l c rest ∙ rw differ missing

  count_into-Distinct :
      (keys : List A) (counts : Dict A ℕ) → Distinct counts → Distinct (count_into counts keys)
  unfolding count_into add_one
  count_into-Distinct [] counts h = h
  count_into-Distinct (a ∷ keys) counts h =
      count_into-Distinct keys (add_one a counts)
        (insert-Distinct a (suc (or_default 0 (lookup a counts))) counts h)

count_at-nest :
    (d p domain policy : String) (n : ℕ) (r : Nested)
    → count_at d p (nest ((domain, policy), n) r)
      ≡ (if (d == domain) && (p == policy) then some n else count_at d p r)
unfolding nest
count_at-nest d p domain policy n r =
    let old = or_default [] (lookup domain r) in
    let inner = insert policy n old in
    let outer = lookup-insert d domain inner r in
    elim (Bool-cases (d == domain)) [
      | inl here ↦
          let reached : lookup d (insert domain inner r) ≡ some inner = outer ∙ rw here refl in
          rw here (
            ap (λ o. lookup p (or_default [] o)) reached
            ∙ (lookup-insert p policy n old
                ∙ ap (λ k. if p == policy then some n else count_at k p r)
                    (sym ((eq_iff d domain).0 here))))
      | inr other ↦
          let kept : lookup d (insert domain inner r) ≡ lookup d r = outer ∙ rw other refl in
          rw other (ap (λ o. lookup p (or_default [] o)) kept)
    ]

abbrev or_else_count : Option ℕ → Option ℕ → Option ℕ
or_else_count none before = before
or_else_count (some n) before = some n

count_at-nest_into :
    (d p : String) (counts : Dict (String × String) ℕ) (r : Nested)
    → Distinct counts
    → count_at d p (nest_into r counts) ≡ or_else_count (lookup (d, p) counts) (count_at d p r)
unfolding nest_into lookup
count_at-nest_into d p [] r h = refl
count_at-nest_into d p (((domain, policy), n) ∷ counts) r h =
    let later = count_at-nest_into d p counts (nest ((domain, policy), n) r) h.1 in
    let now = count_at-nest d p domain policy n r in
    elim (Bool-cases ((d == domain) && (p == policy))) [
      | inl here ↦
          let pair : (d, p) ≡ (domain, policy) = (pair_beq_iff (d, p) (domain, policy)).0 here in
          let missing : lookup (d, p) counts ≡ none = ap (λ k. lookup k counts) pair ∙ h.0 in
          rw here (
            later
            ∙ (ap (λ o. or_else_count o (count_at d p (nest ((domain, policy), n) r))) missing
                ∙ (now ∙ rw here refl)))
      | inr other ↦
          rw other (later ∙ ap (or_else_count (lookup (d, p) counts)) (now ∙ rw other refl))
    ]

nothing_nested : (d p : String) → count_at d p [] ≡ none
unfolding lookup
nothing_nested d p = refl

found_count : (o : Option ℕ) → or_default 0 (or_else_count o none) ≡ or_default 0 o
found_count none = refl
found_count (some n) = refl

-- The nested counts of a list of domains and policies have, under a domain and a policy, how often the two
-- stand in the list; a pair that stands nowhere is missing or counted 0.
pub nested_counts-counter :
    (d p : String) (keys : List (String × String))
    → or_default 0 (count_at d p (nested_counts (counter keys))) ≡ occurrences (d, p) keys
unfolding nested_counts counter
nested_counts-counter d p keys =
    let distinct = count_into-Distinct keys [] tt in
    let nested = count_at-nest_into d p (count_into [] keys) [] distinct in
    let counted = lookup-count_into (d, p) keys [] in
    omega (
      arith,
      ap (or_default 0) nested,
      ap (λ o. or_default 0 (or_else_count (lookup (d, p) (count_into [] keys)) o))
          (nothing_nested d p),
      found_count (lookup (d, p) (count_into [] keys)),
      counted,
      ap (or_default 0) (lookup-nil {K = String × String} {V = ℕ} (d, p)),
    )

-- The counts of a dict add up to the number of the keys.
abbrev pub total {ℓ} : {A : Type ℓ} → Dict A ℕ → ℕ
total [] = 0
total ((k, n) ∷ d) = n + total d

module _ {ℓ} {A : Type ℓ} ⦃e : Eq A⦄ where
  insert-total :
      (a : A) (n : ℕ) (d : Dict A ℕ)
      → total (insert a n d) + or_default 0 (lookup a d) ≡ n + total d
  unfolding insert lookup
  insert-total a n [] = omega arith
  insert-total a n ((j, m) ∷ d) = elim (Bool-cases (a == j)) [
    | inl here ↦ rw here omega arith
    | inr other ↦ rw other omega (arith, insert-total a n d)
  ]

  add_one-total : (a : A) (d : Dict A ℕ) → total (add_one a d) ≡ suc (total d)
  unfolding add_one
  add_one-total a d = omega (arith, insert-total a (suc (or_default 0 (lookup a d))) d)

  count_into-total :
      (keys : List A) (d : Dict A ℕ) → total (count_into d keys) ≡ length keys + total d
  unfolding count_into
  count_into-total [] d = omega arith
  count_into-total (a ∷ keys) d =
      omega (arith, count_into-total keys (add_one a d), add_one-total a d)

  pub counter-total : (keys : List A) → total (counter keys) ≡ length keys
  unfolding counter
  counter-total keys = omega (arith, count_into-total keys [])
