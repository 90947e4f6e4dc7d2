-- ===== src/Lookup/Scan/Closing.antt =====
-- What a scan asks of the transport, and which point in time it closes.
use integrated_backup_monito.Prelude.{
  ℕ, zero, suc, ◌≤◌, ◌≡◌, refl, true, Option, none, some, List, [], ◌∷◌, length, arith, Bool-cases,
  inl, inr,
}
use integrated_backup_monito.Value.{Value, Fields, truthy, null, find, get_or}
use integrated_backup_monito.Lookup.Scan.{
  Fault, incomplete_read, Try, got, raised, Page, last_page, page, Request, Scanned, stop, asked,
  yielding, turn, answered, pit_after, yield_hits, read_page, pages, opened_pages, scan,
  is_explicit, shards_failed, finally_close,
}

-- The point in time that is held after an answer: the one that the answer names, or the one before.
abbrev pub renamed : Value → Try Fields → Value
renamed pit (raised fault) = pit
renamed pit (got answer) = get_or "pit_id" pit answer

module _ (search : ℕ → Request → Try Fields) where
  -- The point in time that is held after the searches, the first of which has the number n.
  abbrev pub held : ℕ → Value → List Request → Value
  held n pit [] = pit
  held n pit (r ∷ rs) = held (suc n) (renamed pit (search n r)) rs

  -- Each search asks the point in time that is held then.
  abbrev pub Asks : ℕ → Value → List Request → Type 0
  Asks n pit [] = Unit
  Asks n pit (r ∷ rs) = (r.pit ≡ pit) × Asks (suc n) (renamed pit (search n r)) rs

  -- The point in time that is held at the end is closed, once, and at most `left` searches were made.
  pub record IsClosed (n left : ℕ) (pit : Value) (s : Scanned) : Type 0 where
    pub closes : s.closed ≡ held n pit s.searches ∷ []
    pub asks : Asks n pit s.searches
    pub bounded : length s.searches ≤ left

  stop-IsClosed :
      (n left : ℕ) (pit : Value) (fault : Option Fault) → IsClosed n left pit (stop pit fault)
  stop-IsClosed n left pit fault = record { closes = refl; asks = tt; bounded = omega arith }

  asked-IsClosed :
      (n left : ℕ) (pit after : Value) (s : Scanned)
      → (let request : Request = record { pit = pit; after = after } in
          IsClosed (suc n) left (renamed pit (search n request)) s
          → IsClosed n (suc left) pit (asked request s))
  asked-IsClosed n left pit after s h = record {
    closes = h.closes;
    asks = (refl, h.asks);
    bounded = omega (arith, h.bounded);
  }

  yielding-IsClosed :
      (n left : ℕ) (pit : Value) (made : List Fields × Option Fault) (s : Scanned)
      → IsClosed n left pit s
      → IsClosed n left pit (yielding pit made s)
  yielding-IsClosed n left pit (hits, none) s h = record {
    closes = h.closes;
    asks = h.asks;
    bounded = h.bounded;
  }
  yielding-IsClosed n left pit (hits, some fault) s h = record {
    closes = refl;
    asks = tt;
    bounded = omega arith;
  }

  turn-IsClosed :
      (n left : ℕ) (pit : Value) (continue : Value → Scanned) (read : Try Page)
      → ((cursor : Value) → IsClosed n left pit (continue cursor))
      → IsClosed n left pit (turn pit continue read)
  turn-IsClosed n left pit continue (raised fault) h = stop-IsClosed n left pit (some fault)
  turn-IsClosed n left pit continue (got last_page) h = stop-IsClosed n left pit none
  turn-IsClosed n left pit continue (got (page hits cursor)) h =
      yielding-IsClosed n left pit (yield_hits hits) (continue cursor) (h cursor)

  answered-IsClosed :
      (n left : ℕ) (pit after : Value) (continue : Value → Value → Scanned) (answer : Try Fields)
      → ((new cursor : Value) → IsClosed n left new (continue new cursor))
      → IsClosed n left (renamed pit answer) (answered pit after continue answer)
  answered-IsClosed n left pit after continue (raised fault) h =
      stop-IsClosed n left pit (some fault)
  answered-IsClosed n left pit after continue (got answer) h =
      let new = pit_after pit answer in
      turn-IsClosed n left new (continue new) (read_page after answer) (h new)

  pages-IsClosed :
      (n left : ℕ) (pit after : Value) → IsClosed n left pit (pages search n left pit after)
  unfolding pages
  pages-IsClosed n zero pit after =
      stop-IsClosed n zero pit (some (incomplete_read "page_budget_exhausted"))
  pages-IsClosed n (suc left) pit after =
      let request : Request = record { pit = pit; after = after } in
      asked-IsClosed n left pit after
        (answered pit after (λ new cursor. pages search (suc n) left new cursor) (search n request))
        (answered-IsClosed (suc n) left pit after
          (λ new cursor. pages search (suc n) left new cursor) (search n request)
          (λ new cursor. pages-IsClosed (suc n) left new cursor))

  opened-IsClosed :
      (max_pages : ℕ) (pit : Value) (failed : Try Value)
      → IsClosed 0 max_pages pit (opened_pages search max_pages pit failed)
  opened-IsClosed max_pages pit (raised fault) = stop-IsClosed 0 max_pages pit (some fault)
  opened-IsClosed max_pages pit (got failed) = elim (Bool-cases (truthy failed)) [
    | inl partial ↦
        rw partial (stop-IsClosed 0 max_pages pit (some (incomplete_read "partial_pit_open")))
    | inr whole ↦ rw whole (pages-IsClosed 0 max_pages pit null)
  ]

  finally_close-IsClosed :
      (close : Value → Option Fault) (left : ℕ) (pit : Value) (s : Scanned)
      → IsClosed 0 left pit s
      → IsClosed 0 left pit (finally_close close s)
  finally_close-IsClosed close left pit s h = record {
    closes = h.closes;
    asks = h.asks;
    bounded = h.bounded;
  }

-- Where the indices pass the check and the transport opens a point in time with an id, the scan closes
-- once, and only, the point in time that it holds at its end, which is the opened one or the last that
-- an answer named; each search asks the one that is held then, and there are at most `max_pages`
-- searches, whatever they answer, however the scan ends, and whatever closing raises.
pub scan-IsClosed :
    (opened : Fields) (pit : Value) (search : ℕ → Request → Try Fields)
    (close : Value → Option Fault) (max_pages : ℕ) (indices : List Value)
    → is_explicit indices ≡ true
    → find "id" opened ≡ some pit
    → IsClosed search 0 max_pages pit (scan (got opened) search close max_pages indices)
unfolding scan
scan-IsClosed opened pit search close max_pages indices allowed found =
    rw (allowed, found)
      (finally_close-IsClosed search close max_pages pit
        (opened_pages search max_pages pit (shards_failed opened))
        (opened-IsClosed search max_pages pit (shards_failed opened)))
