-- ===== src/Collector/Status/Latest.antt =====
-- What the last results hold after a list of results.
use integrated_backup_monito.Prelude.{
  String, ◌≡◌, refl, sym, ap, eq_iff, ◌∙◌, Bool, ◌&&◌, Option, some, List, [], ◌∷◌, ◌==◌, string_eq,
  Bool-cases, inl, inr, if◌then◌else◌,
}
use integrated_backup_monito.Prelude.Dict.{lookup, insert, lookup-insert, or_default}
use integrated_backup_monito.Writer.{CollectionResult}
use integrated_backup_monito.Collector.Status.{
  Results, status_result, record_result, record_results,
}

-- The status of the last result that passes the test, or what was there before.
abbrev pub latest :
    (CollectionResult → Bool)
    → List CollectionResult
    → Option CollectionResult
    → Option CollectionResult
latest test [] before = before
latest test (r ∷ rs) before = latest test rs (if test r then some (status_result r) else before)

abbrev pub of_class : String → String → Results → Option CollectionResult
of_class name class results = lookup class (or_default [] (lookup name results.by_class))

pub record_result-last :
    (name : String) (r : CollectionResult) (results : Results)
    → lookup name (record_result r results).last
      ≡ (if name == r.collector then some (status_result r) else lookup name results.last)
unfolding record_result
record_result-last name r results = lookup-insert name r.collector (status_result r) results.last

pub record_result-of_class :
    (name class : String) (r : CollectionResult) (results : Results)
    → of_class name class (record_result r results) ≡ (
        if (name == r.collector) && (class == r.collection_class)
        then some (status_result r)
        else of_class name class results)
unfolding record_result
record_result-of_class name class r results =
    let old = or_default [] (lookup r.collector results.by_class) in
    let inner = insert r.collection_class (status_result r) old in
    let outer = lookup-insert name r.collector inner results.by_class in
    elim (Bool-cases (name == r.collector)) [
      | inl here ↦
          let reached : lookup name (insert r.collector inner results.by_class) ≡ some inner =
            outer ∙ rw here refl in
          rw here (
            ap (λ o. lookup class (or_default [] o)) reached
            ∙ (lookup-insert class r.collection_class (status_result r) old
                ∙ ap
                    (λ n.
                      if class == r.collection_class
                      then some (status_result r)
                      else of_class n class results)
                    (sym ((eq_iff name r.collector).0 here))))
      | inr other ↦
          let kept : lookup name (insert r.collector inner results.by_class)
              ≡ lookup name results.by_class =
            outer ∙ rw other refl in
          rw other (ap (λ o. lookup class (or_default [] o)) kept)
    ]

-- However many results are recorded: the last result of a collector is the status of its latest one, and
-- the last result of a collector and a class is the status of its latest one of this class; a
-- collector, or a class of it, of which no result came keeps what it had.
pub record_results-latest :
    (name class : String) (rs : List CollectionResult) (results : Results)
    → (lookup name (record_results rs results).last
        ≡ latest (λ r. name == r.collector) rs (lookup name results.last))
      × (of_class name class (record_results rs results)
          ≡ latest
              (λ r. (name == r.collector) && (class == r.collection_class))
              rs
              (of_class name class results))
unfolding record_results
record_results-latest name class [] results = (refl, refl)
record_results-latest name class (r ∷ rs) results =
    let rest = record_results-latest name class rs (record_result r results) in
    (
      rest.0 ∙ ap (latest (λ q. name == q.collector) rs) (record_result-last name r results),
      rest.1
          ∙ ap (latest (λ q. (name == q.collector) && (class == q.collection_class)) rs)
              (record_result-of_class name class r results),
    )
