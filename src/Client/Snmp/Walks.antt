-- ===== src/Client/Snmp/Walks.antt =====
-- What a walk brings, and that its rows have different instances.
use text.Mathlib.TextLemmas.{
  cons-append, nil-append, append-nil, append_assoc, append_cancel_left, cons-ne-nil,
}
use integrated_backup_monito.Prelude.{
  String, ◌<>◌, ◌≡◌, ◌↔◌, refl, sym, ap, ◌∙◌, false, Option, none, some, List, [], ◌∷◌, ◌++◌, All,
  ◌==◌, string_eq, eq_iff, ◌⊎◌, Bool-cases, Option-cases, inl, inr,
}
use integrated_backup_monito.Prelude.Text.{without_prefix}
use integrated_backup_monito.Value.{Fields}
use integrated_backup_monito.Prelude.Text.Lines.{without_prefix-append}
use integrated_backup_monito.Client.Snmp.{
  Response, Answer, answered, runtime_error, raise_on_error, normalized_base, below_or,
  instance_from_oid, bind_rows, walk_oid,
}

-- The rows of all bindings of all responses, in their order.
unfoldable pub all_rows : String → List Response → List Fields
unfolding bind_rows
all_rows base_oid [] = []
all_rows base_oid (r ∷ responses) = bind_rows base_oid r.var_binds ++ all_rows base_oid responses

abbrev pub IsRight : Response → Type 0
IsRight r = (r.error_indication ≡ none) × (r.error_status ≡ none)

not_answered {ℓ} : {A : Type ℓ} {a : A} {text : String} → runtime_error text ≡ answered a → ⊥
not_answered h = cc

not_none : {text : String} → ◌≡◌ {A = Option String} (some text) none → ⊥
not_none h = cc

-- A response that passes has neither error, and the other way about.
pub raise_on_error_iff : (r : Response) → (raise_on_error r ≡ answered tt) ↔ IsRight r
unfolding raise_on_error
raise_on_error_iff r = elim (Option-cases r.error_indication) [
  | inr (text, fails) ↦
      (λ h. absurd (not_answered (rw fails at h)), λ right. absurd (not_none (sym fails ∙ right.0)))
  | inl passes ↦ elim (Option-cases r.error_status) [
    | inr (text, fails) ↦ (
      λ h. absurd (not_answered (rw (passes, fails) at h)),
      λ right. absurd (not_none (sym fails ∙ right.1)),
    )
    | inl works ↦ (λ h. (passes, works), λ right. rw (passes, works) refl)
  ]
]

Answer-cases {ℓ} :
    {A : Type ℓ} (m : Answer A)
    → ((a : A) × (m ≡ answered a)) ⊎ ((text : String) × (m ≡ runtime_error text))
Answer-cases (answered a) = inl (a, refl)
Answer-cases (runtime_error text) = inr (text, refl)

answered-inj {ℓ} : {A : Type ℓ} {a b : A} → answered a ≡ answered b → a ≡ b
answered-inj h = cc

pub walk_oid_iff :
    (base_oid : String) (responses : List Response) (rows : List Fields)
    → (walk_oid base_oid responses ≡ answered rows)
      ↔ (All IsRight responses × (rows ≡ all_rows base_oid responses))
unfolding walk_oid all_rows
walk_oid_iff base_oid [] rows = (λ h. (tt, sym (answered-inj h)), λ h. ap answered (sym h.1))
walk_oid_iff base_oid (r ∷ responses) rows =
    let rest = walk_oid_iff base_oid responses (all_rows base_oid responses) in
    elim (Answer-cases (raise_on_error r)) [
      | inr (text, fails) ↦ (
        λ h. absurd (not_answered (rw fails at h)),
        λ h. absurd (not_answered (sym fails ∙ (raise_on_error_iff r).1 h.0.0)),
      )
      | inl (checked, passes) ↦ elim (Answer-cases (walk_oid base_oid responses)) [
        | inr (text, fails) ↦ (
          λ h. absurd (not_answered (rw (passes, fails) at h)),
          λ h. absurd (not_answered (sym fails ∙ rest.1 (h.0.1, refl))),
        )
        | inl (later, found) ↦
            let same = walk_oid_iff base_oid responses later in
            (
              λ h.
                  let both = same.0 found in
                  (
                    ((raise_on_error_iff r).0 passes, both.0),
                    sym (answered-inj (rw (passes, found) at h))
                        ∙ ap (λ l. bind_rows base_oid r.var_binds ++ l) both.1,
                  ),
              λ h.
                  rw (passes, found)
                    (ap answered
                      (ap (λ l. bind_rows base_oid r.var_binds ++ l) (same.0 found).1 ∙ sym h.1)),
            )
      ]
    ]

-- The base is not below itself.
below-ne : (base rest : String) → (base <> ("." <> rest) == base) ≡ false
below-ne base rest = elim (Bool-cases (base <> ("." <> rest) == base)) [
  | inr other ↦ other
  | inl same ↦ absurd (
      cons-ne-nil "." rest (
        sym (cons-append "." "" rest ∙ ap (λ s. String.◌∷◌ "." s) (nil-append rest))
        ∙ append_cancel_left base ("." <> rest) ""
            ((eq_iff (base <> ("." <> rest)) base).0 same ∙ sym (append-nil base))))
]

-- An OID below the base has as its instance what follows the base and the point, so that no two of
-- them have the same one.
pub instance_from_oid-append :
    (base_oid rest : String)
    → instance_from_oid base_oid (normalized_base base_oid <> ("." <> rest)) ≡ rest
unfolding instance_from_oid
instance_from_oid-append base_oid rest =
    let base = normalized_base base_oid in
    rw (below-ne base rest) (
      ap (λ s. below_or (base <> ("." <> rest)) (without_prefix (base <> ".") s))
        (sym (append_assoc base "." rest))
      ∙ ap (below_or (base <> ("." <> rest))) (without_prefix-append (base <> ".") rest))
