-- ===== src/Parser/Dxi/Alerts.antt =====
-- The counts of the alerts and the tickets.
use integrated_backup_monito.Prelude.{
  ℕ, suc, ◌+◌, String, ◌≡◌, refl, sym, ap, ◌∙◌, Bool, List, [], ◌∷◌, ◌==◌, string_eq, length, keep,
  arith, other_text, Bool-cases, inl, inr, if◌then◌else◌,
}
use integrated_backup_monito.Prelude.Dict.{lookup}
use integrated_backup_monito.Parser.Dxi.{
  Record, lower_of, AlertCounts, count_ticket, count_tickets, alert_counts,
}

unfoldable pub has_priority : String → Record → Bool
unfolding lookup
has_priority name ticket = lower_of (lookup "Priority" ticket) == name

-- The number of the tickets of a priority.
abbrev pub of_priority : String → List Record → ℕ
of_priority name tickets = length (keep (has_priority name) tickets)

abbrev one_more : Bool → ℕ → ℕ
one_more b n = if b then suc n else n

of_priority-cons :
    (name : String) (t : Record) (ts : List Record)
    → of_priority name (t ∷ ts) ≡ one_more (has_priority name t) (of_priority name ts)
of_priority-cons name t ts = elim (Bool-cases (has_priority name t)) [
  | inl here ↦ rw (here, keep) refl
  | inr other ↦ rw (other, keep) refl
]

-- What a ticket adds to each count, and to all.
count_ticket-adds :
    (t : Record) (n : AlertCounts)
    → (let m = count_ticket t n in
        (m.critical ≡ one_more (has_priority "high" t) n.critical)
        × (m.warning ≡ one_more (has_priority "middle" t) n.warning)
        × (m.info ≡ one_more (has_priority "low" t) n.info)
        × (m.critical + m.warning + m.info + m.unclassified
            ≡ suc (n.critical + n.warning + n.info + n.unclassified)))
unfolding count_ticket has_priority
count_ticket-adds t n =
    let p = lower_of (lookup "Priority" t) in
    elim (Bool-cases (p == "high")) [
      | inl high ↦
          rw (high, other_text "low" "high" p refl high, other_text "middle" "high" p refl high)
            (refl, refl, refl, omega arith)
      | inr not_high ↦ elim (Bool-cases (p == "middle")) [
        | inl middle ↦
            rw (not_high, middle, other_text "low" "middle" p refl middle)
              (refl, refl, refl, omega arith)
        | inr not_middle ↦ elim (Bool-cases (p == "low")) [
          | inl low ↦ rw (not_high, not_middle, low) (refl, refl, refl, omega arith)
          | inr not_low ↦ rw (not_high, not_middle, not_low) (refl, refl, refl, omega arith)
        ]
      ]
    ]

one_more-add : (b : Bool) (m n : ℕ) → one_more b m + n ≡ m + one_more b n
one_more-add b m n = ground arith

count_tickets-counts :
    (ts : List Record) (n : AlertCounts)
    → (let m = count_tickets ts n in
        (m.critical ≡ n.critical + of_priority "high" ts)
        × (m.warning ≡ n.warning + of_priority "middle" ts)
        × (m.info ≡ n.info + of_priority "low" ts)
        × (m.critical + m.warning + m.info + m.unclassified
            ≡ n.critical + n.warning + n.info + n.unclassified + length ts))
unfolding count_tickets
count_tickets-counts [] n = (omega arith, omega arith, omega arith, omega arith)
count_tickets-counts (t ∷ ts) n =
    let adds = count_ticket-adds t n in
    let rest = count_tickets-counts ts (count_ticket t n) in
    let moved = λ (name : String) (before : ℕ).
      one_more-add (has_priority name t) before (of_priority name ts)
      ∙ ap (λ m. before + m) (sym (of_priority-cons name t ts)) in
    (
      rest.0 ∙ (ap (λ m. m + of_priority "high" ts) adds.0 ∙ moved "high" n.critical),
      rest.1 ∙ (ap (λ m. m + of_priority "middle" ts) adds.1 ∙ moved "middle" n.warning),
      rest.2 ∙ (ap (λ m. m + of_priority "low" ts) adds.2 ∙ moved "low" n.info),
      omega (arith, rest.3, adds.3),
    )

-- The critical, warning and info counts are the numbers of the tickets of high, middle and low
-- priority, whatever the case of its letters; and with the unclassified ones they add up to the total,
-- which is the number of the alerts and the tickets.
pub alert_counts-IsCount :
    (admin_alerts tickets : List Record)
    → (let n = alert_counts admin_alerts tickets in
        (n.critical ≡ of_priority "high" tickets)
        × (n.warning ≡ of_priority "middle" tickets)
        × (n.info ≡ of_priority "low" tickets)
        × (n.critical + n.warning + n.info + n.unclassified ≡ n.total)
        × (n.total ≡ length admin_alerts + length tickets))
unfolding alert_counts
alert_counts-IsCount admin_alerts tickets =
    let counted = count_tickets-counts tickets (record {
      critical = 0;
      warning = 0;
      info = 0;
      unclassified = length admin_alerts;
      total = 0;
    }) in
    (
      omega (arith, counted.0),
      omega (arith, counted.1),
      omega (arith, counted.2),
      omega (arith, counted.3),
      refl,
    )
