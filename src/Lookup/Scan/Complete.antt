-- ===== src/Lookup/Scan/Complete.antt =====
-- A batch is the hits of all pages, or no batch.
use mathlib.Core.Path.{subst}
use integrated_backup_monito.Prelude.{
  ℕ, suc, ◌≤◌, ◌≡◌, ◌↔◌, refl, sym, ap, ◌∙◌, true, false, Option, none, some, List, [], ◌∷◌, ◌++◌,
  Bool-cases, Option-cases, inl, inr,
}
use integrated_backup_monito.Value.{Value, Items, nil, Fields, truthy, null, find, get_or}
use integrated_backup_monito.Lookup.Scan.{
  Fault, Try, got, raised, Request, Scanned, pages, opened_pages, scan, is_explicit, shards_failed,
  last_page, page, fault_of_close, fault_after, finally_close, read_batch, batch_of,
  incomplete_read, stop,
}
use integrated_backup_monito.Lookup.Scan.Answer.{
  NoFailedShards, IsWhole, shards_failed-whole, whole-shards_failed, read_page-IsWhole,
  IsWhole-read_page,
}
use integrated_backup_monito.Lookup.Scan.Hit.{
  LastSort, IsCursor, Hits, page_of_hits-last, page_of_hits-page, LastSort-page_of_hits,
  yield_hits-Hits, Hits-yield_hits,
}
use integrated_backup_monito.Lookup.Scan.Reads.{
  Reads, finished, further, faulted, pages-Whole, pages_read,
}

-- From page number n on, with a point in time and a cursor, k searches in a row are answered, each for the
-- point in time that the answer before names or else the one before it. Each answer but the last is
-- whole, its items are dicts with a source, and the last item's sort is a new cursor, which the next
-- search has; the last answer is whole and has no items. `hits` are all items, in order, and `last` is
-- the point in time that is held at the end.
pub data Pages (search : ℕ → Request → Try Fields)
    : ℕ → ℕ → Value → Value → List Fields → Value → Type 0 where
  no_more :
      {n : ℕ} {pit after : Value} {answer : Fields}
      → search n (record { pit = pit; after = after }) ≡ got answer
      → IsWhole answer nil
      → Pages search n 1 pit after [] (get_or "pit_id" pit answer)
  one_more :
      {n k : ℕ} {pit after cursor last : Value} {answer : Fields} {items : Items}
      {hits rest : List Fields}
      → search n (record { pit = pit; after = after }) ≡ got answer
      → IsWhole answer items
      → LastSort items cursor
      → IsCursor after cursor
      → Hits items hits
      → Pages search (suc n) k (get_or "pit_id" pit answer) cursor rest last
      → Pages search n (suc k) pit after (hits ++ rest) last

module _ (search : ℕ → Request → Try Fields) where
  Reads-Pages :
      {n k : ℕ} {pit after last : Value} {hits : List Fields}
      → Reads search n k pit after hits last
      → Pages search n k pit after hits last
  Reads-Pages (finished {n = n} {pit = pit} {after = after} {answer = answer} e r p) =
      let (items, whole, made) = read_page-IsWhole after answer last_page r in
      let empty = page_of_hits-last after items made in
      subst (Pages search n 1 pit after []) p (Pages.no_more e (subst (IsWhole answer) empty whole))
  Reads-Pages
        (further {n = n} {k = k} {pit = pit} {after = after} {cursor = cursor} {last = last}
          {answer = answer} {items = own} {hits = hits} e r y rest all_) =
      let (items, whole, made) = read_page-IsWhole after answer (page own cursor) r in
      let (same, sorted, new) = page_of_hits-page after items own cursor made in
      subst (λ all. Pages search n (suc k) pit after all last) (sym all_)
        (Pages.one_more e whole sorted new
          (subst (λ xs. Hits xs hits) (sym same) (yield_hits-Hits own hits y)) (Reads-Pages rest))

  Pages-Reads :
      {n k : ℕ} {pit after last : Value} {hits : List Fields}
      → Pages search n k pit after hits last
      → Reads search n k pit after hits last
  Pages-Reads (no_more {after = after} {answer = answer} e whole) =
      Reads.finished e (IsWhole-read_page after answer nil whole) refl
  Pages-Reads
        (one_more {after = after} {cursor = cursor} {answer = answer} {items = items} e whole sorted
          new sourced rest) =
      Reads.further e
        (IsWhole-read_page after answer items whole
          ∙ LastSort-page_of_hits after items cursor sorted new)
        (Hits-yield_hits sourced) (Pages-Reads rest) refl

-- What a batch stands for: the point in time was opened whole, all pages up to the first empty one were
-- read, at most `max_pages` with it, and the point in time that is held then could be closed.
abbrev pub IsBatch :
    Fields → Value → (ℕ → Request → Try Fields) → (Value → Option Fault) → ℕ → List Fields → Type 0
IsBatch opened pit search close max_pages hits =
    NoFailedShards opened
    × (k : ℕ) × (last : Value) × (k ≤ max_pages)
    × Pages search 0 k pit null hits last
    × (close last ≡ none)

batch_of-got :
    (s : Scanned) (hits : List Fields) → batch_of s ≡ got hits → (s.fault ≡ none) × (s.hits ≡ hits)
batch_of-got s hits h = elim (Option-cases s.fault) [
  | inl quiet ↦ (quiet, same s.hits hits (rw quiet at h))
  | inr (fault, e) ↦ absurd (no_batch fault hits (rw e at h))
]
  where
    same : (a b : List Fields) → got a ≡ got b → a ≡ b
    same a b e = cc

    no_batch : (fault : Fault) (a : List Fields) → raised fault ≡ got a → ⊥
    no_batch fault a e = cc

fault_of_close-none :
    (closing fault : Option Fault)
    → fault_of_close closing fault ≡ none
    → (closing ≡ none) × (fault ≡ none)
fault_of_close-none none fault h = (refl, h)
fault_of_close-none (some raised_on_close) fault h = absurd (faulted raised_on_close h)

module _ (search : ℕ → Request → Try Fields) (close : Value → Option Fault) where
  -- The end of the scan's own block and the closing that follows it.
  closed-none :
      (s : Scanned) (last : Value)
      → s.closed ≡ last ∷ []
      → (finally_close close s).fault ≡ fault_of_close (close last) s.fault
  closed-none s last h = ap (λ pits. fault_after close pits s.fault) h

  batch-pages :
      (max_pages : ℕ) (pit : Value) (hits : List Fields)
      → batch_of (finally_close close (pages search 0 max_pages pit null)) ≡ got hits
      → (k : ℕ) × (last : Value) × (k ≤ max_pages)
        × Pages search 0 k pit null hits last
        × (close last ≡ none)
  batch-pages max_pages pit hits h =
      let s = pages search 0 max_pages pit null in
      let (quiet, same) = batch_of-got (finally_close close s) hits h in
      let own = fault_own s.closed s.fault quiet in
      let (k, last, few, closes, read) = pages-Whole search 0 max_pages pit null own in
      let (closed_well, none_raised) =
        fault_of_close-none (close last) s.fault (sym (closed-none s last closes) ∙ quiet) in
      (
        k,
        last,
        few,
        subst (λ hs. Pages search 0 k pit null hs last) same (Reads-Pages search read),
        closed_well,
      )
    where
      fault_own :
          (pits : List Value) (fault : Option Fault)
          → fault_after close pits fault ≡ none
          → fault ≡ none
      fault_own [] fault e = e
      fault_own (p ∷ ps) fault e = (fault_of_close-none (close p) fault e).1

  pages-batch :
      (max_pages k : ℕ) (pit last : Value) (hits : List Fields)
      → k ≤ max_pages
      → Pages search 0 k pit null hits last
      → close last ≡ none
      → batch_of (finally_close close (pages search 0 max_pages pit null)) ≡ got hits
  pages-batch max_pages k pit last hits few read closed_well =
      let s = pages search 0 max_pages pit null in
      let (made, closes) =
        pages_read search 0 k max_pages pit null last hits (Pages-Reads search read) few in
      let (quiet, same) = batch_of-got s hits made in
      rw (closed-none s last closes, closed_well, quiet) (ap got same)

  stopped :
      (pit : Value) (fault : Fault) (hits : List Fields)
      → batch_of (finally_close close (stop pit (some fault))) ≡ got hits
      → ⊥
  stopped pit fault hits h =
      let (quiet, same) = batch_of-got (finally_close close (stop pit (some fault))) hits h in
      faulted fault ((fault_of_close-none (close pit) (some fault) quiet).1)

  opened-IsBatch :
      (max_pages : ℕ) (opened : Fields) (pit : Value) (failed : Try Value) (hits : List Fields)
      → shards_failed opened ≡ failed
      → (batch_of (finally_close close (opened_pages search max_pages pit failed)) ≡ got hits)
        ↔ IsBatch opened pit search close max_pages hits
  opened-IsBatch max_pages opened pit (raised fault) hits counted = (
    (λ h. absurd (stopped pit fault hits h)),
    (λ batch.
        let (failed, got_failed, well) = whole-shards_failed opened batch.0 in
        absurd (no_count fault failed (sym counted ∙ got_failed))),
  )
    where
      no_count : (e : Fault) (v : Value) → raised e ≡ got v → ⊥
      no_count e v h = cc
  opened-IsBatch max_pages opened pit (got failed) hits counted =
      elim (Bool-cases (truthy failed)) [
        | inl partial ↦ rw partial (
          (λ h. absurd (stopped pit (incomplete_read "partial_pit_open") hits h)),
          (λ batch.
              let (v, got_failed, well) = whole-shards_failed opened batch.0 in
              absurd
                (both (sym partial ∙ ap truthy (same_count v (sym counted ∙ got_failed)) ∙ well))),
        )
        | inr well ↦ rw well (
          (λ h.
              let (k, last, few, read, closed_well) = batch-pages max_pages pit hits h in
              (shards_failed-whole opened failed counted well, k, last, few, read, closed_well)),
          (λ (whole, k, last, few, read, closed_well).
              pages-batch max_pages k pit last hits few read closed_well),
        )
      ]
    where
      same_count : (v : Value) → got failed ≡ got v → failed ≡ v
      same_count v h = cc

      both : true ≡ false → ⊥
      both h = cc

-- Where the indices pass the check and the transport opens a point in time with an id, `read_batch`
-- returns a batch exactly if none of the opening's shards failed, the batch is the hits of all the pages
-- up to the first empty one, in order, there are at most `max_pages` of them, the empty one included,
-- and closing the point in time that is held then raises nothing. Each page is an answer that is not
-- timed out, has no failed shard and is not terminated early, whose items are dicts with a source and
-- whose last item's sort is a list that is not empty and not the cursor that was asked.
pub read_batch_iff :
    (opened : Fields) (pit : Value) (search : ℕ → Request → Try Fields)
    (close : Value → Option Fault) (max_pages : ℕ) (indices : List Value) (hits : List Fields)
    → is_explicit indices ≡ true
    → find "id" opened ≡ some pit
    → (read_batch (got opened) search close max_pages indices ≡ got hits)
      ↔ IsBatch opened pit search close max_pages hits
unfolding read_batch scan
read_batch_iff opened pit search close max_pages indices hits allowed found =
    rw (allowed, found)
      (opened-IsBatch search close max_pages opened pit (shards_failed opened) hits refl)
