-- ===== src/Collector/Loop/Answers.antt =====
-- That no failure keeps a loop from its later turns.
use integrated_backup_monito.Prelude.{
  String, ◌≡◌, refl, sym, ap, ◌∙◌, Bool, true, false, ◌&&◌, not, Option, none, some, List, [], ◌∷◌,
  eq_refl, ◌++◌, string_eq, any, any-false, Bool-cases, inl, inr, distinct_bools,
}
use integrated_backup_monito.Prelude.Dict.{lookup}
use integrated_backup_monito.Writer.{skipped_result}
use integrated_backup_monito.Collector.Collect.{
  Identity, Fetched, payload, failed, collect, collected, truthy_text,
}
use integrated_backup_monito.Collector.Status.{status_result, record_result, record_results}
use integrated_backup_monito.Collector.Status.Latest.{
  of_class, record_result-last, record_result-of_class,
}
use integrated_backup_monito.Collector.Loop.{
  Turn, Service, Loops, Label, label_of, is_label, has_ended, run_turn, run_turns, after_turn,
}
use integrated_backup_monito.Collector.Loop.Effects.{
  collects, is_result, is_interrupted, is_recorded, effect, run_turn-effect, add_result,
}

collected-labels :
    (now : _) (c : Identity) (class : String) (f : Fetched) (reason : Option String)
    → ((collected now c class f reason).collector ≡ c.name)
      × ((collected now c class f reason).collection_class ≡ class)
unfolding collected skipped_result
collected-labels now c class (payload p) none = (refl, refl)
collected-labels now c class (failed text) none = (refl, refl)
collected-labels now c class f (some reason) = (refl, refl)

-- A result has the labels of its run, whether or not it was skipped or failed.
collect-labels :
    (now : _) (c : Identity) (class : String) (f : Fetched)
    → ((collect now c class f).collector ≡ c.name)
      × ((collect now c class f).collection_class ≡ class)
unfolding collect
collect-labels now c class f = collected-labels now c class f (truthy_text c.skip_reason)

run_turns-append :
    (ts us : List Turn) (l : Loops) → run_turns (ts ++ us) l ≡ run_turns us (run_turns ts l)
unfolding run_turns
run_turns-append [] us l = refl
run_turns-append (t ∷ ts) us l = elim (Bool-cases (has_ended (label_of t) l.ended)) [
  | inl over ↦ rw over (run_turns-append ts us l)
  | inr on ↦ rw on (run_turns-append ts us (after_turn t l (run_turn t l.service)))
]

-- Whether the loop of a label ends in a turn.
abbrev pub ends : Label → Turn → Bool
ends label t = is_label label (label_of t) && is_interrupted t

ended_after-goes_on :
    (b : Bool) (label : Label) (t : Turn) (l : Loops) (s : Service)
    → has_ended label l.ended ≡ false
    → (is_label label (label_of t) && b) ≡ false
    → has_ended label (after_turn t l (not b, s)).ended ≡ false
unfolding has_ended
ended_after-goes_on false label t l s on kept = on
ended_after-goes_on true label t l s on kept = elim (Bool-cases (is_label label (label_of t))) [
  | inl same ↦ absurd (distinct_bools (sym (ap (λ b. b && true) same) ∙ kept))
  | inr other ↦ rw (other, any) on
]

-- A loop goes on through the turns of others, and through its own that are not cancelled.
pub run_turns-goes_on :
    (label : Label) (ts : List Turn) (l : Loops)
    → has_ended label l.ended ≡ false
    → any (ends label) ts ≡ false
    → has_ended label (run_turns ts l).ended ≡ false
unfolding run_turns
run_turns-goes_on label [] l on kept = on
run_turns-goes_on label (t ∷ ts) l on kept =
    let each = any-false (ends label) t ts kept in
    elim (Bool-cases (has_ended (label_of t) l.ended)) [
      | inl over ↦ rw over (run_turns-goes_on label ts l on each.1)
      | inr runs ↦
          rw (runs, run_turn-effect t l.service)
            (run_turns-goes_on label ts
              (after_turn t l (not (is_interrupted t), effect t l.service))
              (ended_after-goes_on (is_interrupted t) label t l (effect t l.service) on each.0)
              each.1)
    ]

after_turn-service :
    (b : Bool) (t : Turn) (l : Loops) (s : Service) → (after_turn t l (b, s)).service ≡ s
after_turn-service true t l s = refl
after_turn-service false t l s = refl

add_result-fetched :
    (b : Bool) (t : Turn) (o : Option Fetched) (f : Fetched)
    → b ≡ true
    → o ≡ some f
    → add_result b t o [] ≡ collect t.collected_at t.collector t.class f ∷ []
add_result-fetched b t o f h k = rw (h, k) refl

-- The results after one turn of a loop that goes on.
run_turns-recorded :
    (t : Turn) (f : Fetched) (l : Loops)
    → has_ended (label_of t) l.ended ≡ false
    → is_recorded t ≡ true
    → t.fetched ≡ some f
    → (run_turns (t ∷ []) l).service.results
      ≡ record_result (collect t.collected_at t.collector t.class f) l.service.results
unfolding run_turns record_results effect
run_turns-recorded t f l on new fetched =
    rw (on, run_turn-effect t l.service)
      (ap (λ s. s.results) (after_turn-service (not (is_interrupted t)) t l (effect t l.service))
        ∙ ap (λ rs. record_results rs l.service.results)
            (add_result-fetched (is_recorded t) t t.fetched f new fetched))

-- However many turns have failed or been skipped, a turn of a loop that was not cancelled leaves its
-- result as the last one of its collector and of its class, if nothing stops it itself: it gets the
-- lock, and what it has fetched, be it an error's text, is written.
pub run_turns-answers :
    (ts : List Turn) (t : Turn) (f : Fetched) (l : Loops)
    → has_ended (label_of t) l.ended ≡ false
    → any (ends (label_of t)) ts ≡ false
    → collects t ≡ true
    → t.fetched ≡ some f
    → is_result t.written ≡ true
    → (let results = (run_turns (ts ++ t ∷ []) l).service.results in
        let answer = status_result (collect t.collected_at t.collector t.class f) in
        (lookup t.collector.name results.last ≡ some answer)
        × (of_class t.collector.name t.class results ≡ some answer))
unfolding run_turns
run_turns-answers ts t f l on kept enters fetched written =
    let before = run_turns ts l in
    let r = collect t.collected_at t.collector t.class f in
    let labels = collect-labels t.collected_at t.collector t.class f in
    let new : is_recorded t ≡ true = rw (enters, fetched, written) refl in
    let final : (run_turns (ts ++ t ∷ []) l).service.results
        ≡ record_result r before.service.results =
      ap (λ m. m.service.results) (run_turns-append ts (t ∷ []) l)
      ∙ run_turns-recorded t f before (run_turns-goes_on (label_of t) ts l on kept) new fetched in
    (
      ap (λ s. lookup t.collector.name s.last) final
          ∙ (record_result-last t.collector.name r before.service.results
              ∙ rw (labels.0, eq_refl t.collector.name) refl),
      ap (of_class t.collector.name t.class) final
          ∙ (record_result-of_class t.collector.name t.class r before.service.results
              ∙ rw (labels.0, labels.1, eq_refl t.collector.name, eq_refl t.class) refl),
    )
