-- ===== src/Lookup/Scan/Reads.antt =====
-- A scan that raises nothing has read page after page, as `read_page` and `yield_hits` give them.
use integrated_backup_monito.Prelude.{
  Option-cases, ℕ, zero, suc, ◌≤◌, ◌≡◌, refl, ap, sym, ◌∙◌, Option, none, some, List, [], ◌∷◌, ◌++◌,
  arith, inl, inr,
}
use integrated_backup_monito.Value.{Value, Items, Fields}
use integrated_backup_monito.Lookup.Scan.{
  Fault, Try, got, raised, Page, last_page, page, Request, Scanned, before, yielding, turn,
  answered, pit_after, yield_hits, read_page, pages, batch_of,
}

-- From page number n on, with a point in time and a cursor, k searches in a row are answered; each answer
-- but the last gives a page and its hits, and the last answer gives the last page. `last` is the point
-- in time that is held at the end.
pub data Reads (search : ℕ → Request → Try Fields)
    : ℕ → ℕ → Value → Value → List Fields → Value → Type 0 where
  finished :
      {n : ℕ} {pit after last : Value} {answer : Fields}
      → search n (record { pit = pit; after = after }) ≡ got answer
      → read_page after answer ≡ got last_page
      → pit_after pit answer ≡ last
      → Reads search n 1 pit after [] last
  further :
      {n k : ℕ} {pit after cursor last : Value} {answer : Fields} {items : Items}
      {hits rest all : List Fields}
      → search n (record { pit = pit; after = after }) ≡ got answer
      → read_page after answer ≡ got (page items cursor)
      → yield_hits items ≡ (hits, none)
      → Reads search (suc n) k (pit_after pit answer) cursor rest last
      → all ≡ hits ++ rest
      → Reads search n (suc k) pit after all last

-- The pages that a scan with `left` searches left has read.
abbrev pub Whole : (ℕ → Request → Try Fields) → ℕ → ℕ → Value → Value → Scanned → Type 0
Whole search n left pit after s =
    (k : ℕ) × (last : Value) × (k ≤ left)
    × (s.closed ≡ last ∷ [])
    × Reads search n k pit after s.hits last

pub faulted : (fault : Fault) → some fault ≡ none → ⊥
faulted fault h = cc

pub before-got :
    (own others : List Fields) (s : Scanned)
    → batch_of s ≡ got others
    → batch_of (before own s) ≡ got (own ++ others)
before-got own others s h = elim (Option-cases s.fault) [
  | inl none_raised ↦
      rw none_raised (ap (λ hits. got (own ++ hits)) (got_hits s.hits others (rw none_raised at h)))
  | inr (fault, e) ↦ absurd (raised_got fault others (rw e at h))
]
  where
    got_hits : (hits rest : List Fields) → got hits ≡ got rest → hits ≡ rest
    got_hits hits rest e = cc

    raised_got : (fault : Fault) (rest : List Fields) → raised fault ≡ got rest → ⊥
    raised_got fault rest e = cc

module _ (search : ℕ → Request → Try Fields) where
  yielding-Whole :
      (n left : ℕ) (pit after cursor : Value) (answer : Fields) (items : Items)
      (made : List Fields × Option Fault) (rest : Scanned)
      → search n (record { pit = pit; after = after }) ≡ got answer
      → read_page after answer ≡ got (page items cursor)
      → yield_hits items ≡ made
      → (rest.fault ≡ none → Whole search (suc n) left (pit_after pit answer) cursor rest)
      → (yielding (pit_after pit answer) made rest).fault ≡ none
      → Whole search n (suc left) pit after (yielding (pit_after pit answer) made rest)
  yielding-Whole n left pit after cursor answer items (hits, some fault) rest e r y next h =
      absurd (faulted fault h)
  yielding-Whole n left pit after cursor answer items (hits, none) rest e r y next h =
      let (k, last, few, closes, read) = next h in
      (suc k, last, omega (arith, few), closes, Reads.further e r y read refl)

  turn-Whole :
      (n left : ℕ) (pit after : Value) (answer : Fields) (continue : Value → Scanned)
      (read : Try Page)
      → search n (record { pit = pit; after = after }) ≡ got answer
      → read_page after answer ≡ read
      → ((cursor : Value)
          → (continue cursor).fault ≡ none
          → Whole search (suc n) left (pit_after pit answer) cursor (continue cursor))
      → (turn (pit_after pit answer) continue read).fault ≡ none
      → Whole search n (suc left) pit after (turn (pit_after pit answer) continue read)
  turn-Whole n left pit after answer continue (raised fault) e r next h = absurd (faulted fault h)
  turn-Whole n left pit after answer continue (got last_page) e r next h =
      (1, pit_after pit answer, omega arith, refl, Reads.finished e r refl)
  turn-Whole n left pit after answer continue (got (page items cursor)) e r next h =
      yielding-Whole n left pit after cursor answer items (yield_hits items) (continue cursor) e r
        refl (next cursor) h

  answered-Whole :
      (n left : ℕ) (pit after : Value) (continue : Value → Value → Scanned) (answer : Try Fields)
      → search n (record { pit = pit; after = after }) ≡ answer
      → ((new cursor : Value)
          → (continue new cursor).fault ≡ none
          → Whole search (suc n) left new cursor (continue new cursor))
      → (answered pit after continue answer).fault ≡ none
      → Whole search n (suc left) pit after (answered pit after continue answer)
  answered-Whole n left pit after continue (raised fault) e next h = absurd (faulted fault h)
  answered-Whole n left pit after continue (got answer) e next h =
      let new = pit_after pit answer in
      turn-Whole n left pit after answer (continue new) (read_page after answer) e refl (next new) h

  pub pages-Whole :
      (n left : ℕ) (pit after : Value)
      → (pages search n left pit after).fault ≡ none
      → Whole search n left pit after (pages search n left pit after)
  unfolding pages
  pages-Whole n zero pit after h = absurd (faulted _ h)
  pages-Whole n (suc left) pit after h =
      answered-Whole n left pit after (λ new cursor. pages search (suc n) left new cursor)
        (search n (record { pit = pit; after = after })) refl
        (λ new cursor. pages-Whole (suc n) left new cursor) h

  -- The other way: with enough searches left the pages are read, and nothing is raised.
  pub pages_read :
      (n k left : ℕ) (pit after last : Value) (hits : List Fields)
      → Reads search n k pit after hits last
      → k ≤ left
      → (batch_of (pages search n left pit after) ≡ got hits)
        × ((pages search n left pit after).closed ≡ last ∷ [])
  unfolding pages
  pages_read n k zero pit after last hits (finished e r p) few = absurd (omega arith)
  pages_read n k (suc left) pit after last hits (finished e r p) few =
      (rw (e, r) refl, rw (e, r) (ap (λ held. held ∷ []) p))
  pages_read n k zero pit after last hits (further e r y rest whole) few = absurd (omega arith)
  pages_read n (suc k) (suc left) pit after last hits
        (further {cursor = cursor} {answer = answer} {hits = own} {rest = others} e r y rest whole)
        few =
      let (read, closes) =
        pages_read (suc n) k left (pit_after pit answer) cursor last others rest
          (omega (arith, few)) in
      (
        rw (e, r, y)
            (before-got own others (pages search (suc n) left (pit_after pit answer) cursor) read
              ∙ ap got (sym whole)),
        rw (e, r, y) closes,
      )
