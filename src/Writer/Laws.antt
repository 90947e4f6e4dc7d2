-- ===== src/Writer/Laws.antt =====
-- The names of the indices that a result's documents go to.
use integrated_backup_monito.Prelude.{
  suc, ◌+◌, ◌<>◌, String, ◌≡◌, refl, ap, true, List, [], ◌∷◌, ◌==◌, string_eq, contains, length,
  length-append, All, append-All, if◌then◌else◌, arith, Bool-cases, inl, inr, eq_iff, eq_refl,
}
use integrated_backup_monito.Prelude.Text.{strip, lower, upper}
use integrated_backup_monito.Prelude.Text.Case.{lower-lower}
use integrated_backup_monito.Value.{str, Fields, Runtime, get, or_else, show}
use integrated_backup_monito.Derived.Documents.{iter_derived_documents}
use integrated_backup_monito.Writer.{CollectionResult, raw_document}
use integrated_backup_monito.Writer.Month.{is_month}
use integrated_backup_monito.Writer.Routing.{
  Action, raw_index, current_index, known_or, domain_of, security_domain, networker_document_month,
  networker_raw_index, networker_current_index, derived_index, networker_entity_segment,
  derived_action, derived_actions, has_current, current_actions, iter_networker_actions,
  iter_actions_for_result,
}

-- Elasticsearch takes names in lower case only.
abbrev pub IsLowered : Action → Type 0
IsLowered a = lower a.index ≡ a.index

module _ (rt : Runtime) where
  known_or-known :
      (otherwise s : String)
      → contains (known_or otherwise s) ("core" ∷ "chnl" ∷ "info" ∷ otherwise ∷ []) ≡ true
  known_or-known otherwise s =
      ground (arith, eq_refl otherwise, eq_iff s "core", eq_iff s "chnl", eq_iff s "info")

  kept-is_month :
      (value fallback : String)
      → is_month fallback ≡ true
      → is_month (if is_month value then value else fallback) ≡ true
  kept-is_month value fallback h = elim (Bool-cases (is_month value)) [
    | inl good ↦ rw good good
    | inr bad ↦ rw bad h
  ]

  networker_document_month-is_month :
      (document : Fields) (fallback : String)
      → is_month fallback ≡ true
      → is_month (networker_document_month rt document fallback) ≡ true
  unfolding networker_document_month
  networker_document_month-is_month document fallback h =
      kept-is_month (show rt (or_else (get "index_month" document) (str ""))) fallback h

  security_domain-known :
      (document : Fields)
      → contains (security_domain rt document) ("core" ∷ "chnl" ∷ "info" ∷ "unmapped" ∷ []) ≡ true
  unfolding security_domain
  security_domain-known document =
      known_or-known "unmapped" (lower (strip (show rt (domain_of (get "payload" document)))))

  -- Where the month of the collection is written as a month, a derived document's index is the lowered
  -- text of "NW-", a security domain of the three known ones and "unmapped", the entity, and a text that
  -- is a month: four digits, a dash and 01 to 12.
  pub derived_index-parts :
      (document : Fields) (month : String)
      → is_month month ≡ true
      → (domain : String) × (own_month : String) × (derived_index rt month document
          ≡ lower (
              "NW-"
              <> (upper domain
                  <> ("-" <> (networker_entity_segment rt document <> ("-" <> own_month))))))
        × (contains domain ("core" ∷ "chnl" ∷ "info" ∷ "unmapped" ∷ []) ≡ true)
        × (is_month own_month ≡ true)
  unfolding derived_index
  derived_index-parts document month h = (
    security_domain rt document,
    networker_document_month rt document month,
    refl,
    security_domain-known document,
    networker_document_month-is_month document month h,
  )

module _ (rt : Runtime) (r : CollectionResult) where
  current_actions-IsLowered :
      (index : String) → lower index ≡ index → All IsLowered (current_actions rt r index)
  current_actions-IsLowered index h = elim (Bool-cases (has_current r)) [
    | inl some_current ↦ rw some_current (h, tt)
    | inr no_current ↦ rw no_current tt
  ]

  derived-IsLowered :
      (month : String) (documents : List Fields)
      → All IsLowered (derived_actions rt month documents)
  unfolding derived_actions derived_action derived_index
  derived-IsLowered month [] = tt
  derived-IsLowered month (d ∷ ds) = (lower-lower _, derived-IsLowered month ds)

  raw_index-IsLowered : lower (raw_index rt r) ≡ raw_index rt r
  unfolding raw_index
  raw_index-IsLowered = lower-lower _

  current_index-IsLowered : lower (current_index r) ≡ current_index r
  unfolding current_index
  current_index-IsLowered = lower-lower _

  networker-IsLowered : All IsLowered (iter_networker_actions rt r)
  unfolding iter_networker_actions networker_raw_index networker_current_index
  networker-IsLowered = (
    lower-lower _,
    append-All IsLowered
        (derived_actions rt (rt.strftime "%Y-%m" r.collected_at)
          (iter_derived_documents rt (raw_document rt r)))
        (derived-IsLowered (rt.strftime "%Y-%m" r.collected_at)
          (iter_derived_documents rt (raw_document rt r)))
        (current_actions rt r (networker_current_index rt r))
        (current_actions-IsLowered (networker_current_index rt r) (lower-lower _)),
  )

  -- Every action of a result names its index in lower case.
  pub iter_actions_for_result-IsLowered : All IsLowered (iter_actions_for_result rt r)
  unfolding iter_actions_for_result
  iter_actions_for_result-IsLowered = elim (Bool-cases (r.target_type == "Networker")) [
    | inl networker ↦ rw networker networker-IsLowered
    | inr other ↦
        rw other
          (raw_index-IsLowered, current_actions-IsLowered (current_index r) current_index-IsLowered)
  ]

  derived_actions-length :
      (month : String) (documents : List Fields)
      → length (derived_actions rt month documents) ≡ length documents
  unfolding derived_actions
  derived_actions-length month [] = refl
  derived_actions-length month (d ∷ ds) = ap suc (derived_actions-length month ds)

  current_actions-length :
      (index : String) → length (current_actions rt r index) ≡ (if has_current r then 1 else 0)
  current_actions-length index = elim (Bool-cases (has_current r)) [
    | inl some_current ↦ rw some_current refl
    | inr no_current ↦ rw no_current refl
  ]

  networker_actions-length :
      length (iter_networker_actions rt r)
      ≡ 1
        + ((if has_current r then 1 else 0)
            + length (iter_derived_documents rt (raw_document rt r)))
  unfolding iter_networker_actions
  networker_actions-length = omega (
    arith,
    length-append (current_actions rt r (networker_current_index rt r)) (
        derived_actions rt (rt.strftime "%Y-%m" r.collected_at)
          (iter_derived_documents rt (raw_document rt r))),
    current_actions-length (networker_current_index rt r),
    derived_actions-length (rt.strftime "%Y-%m" r.collected_at)
        (iter_derived_documents rt (raw_document rt r)),
  )

  -- A result is written as its raw document, its status if the class is "fast" or "jobs", and, for
  -- NetWorker and for nothing else, every document that is derived from the raw one.
  pub iter_actions_for_result-length :
      length (iter_actions_for_result rt r)
      ≡ 1
        + ((if has_current r then 1 else 0)
            + (if r.target_type == "Networker"
                then length (iter_derived_documents rt (raw_document rt r))
                else 0))
  unfolding iter_actions_for_result
  iter_actions_for_result-length = elim (Bool-cases (r.target_type == "Networker")) [
    | inl networker ↦ rw networker networker_actions-length
    | inr other ↦ rw other omega (arith, current_actions-length (current_index r))
  ]
