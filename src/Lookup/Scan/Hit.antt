-- ===== src/Lookup/Scan/Hit.antt =====
-- The items of a page, its cursor and its hits, read off the items themselves, and what `scan` makes of
-- them.
use mathlib.Core.Path.{subst}
use integrated_backup_monito.Prelude.{
  ◌≡◌, refl, sym, ap, ◌∙◌, Bool, true, false, not, Option, none, some, List, [], ◌∷◌,
  distinct_bools, if◌then◌else◌,
}
use integrated_backup_monito.Value.{
  Value, null, bool, int, real, str, datetime, arr, obj, Items, nil, cons, Fields, get, value_beq,
}
use integrated_backup_monito.Lookup.Scan.{
  Fault, other_error, incomplete_read, got, raised, last_sort, is_cursor, has_source, yielded_one,
  yield_hits, Page, last_page, page, next_page, page_of_hits,
}
use integrated_backup_monito.Lookup.Scan.Answer.{got-injective, raised_got, bind-got}

-- The `sort` of the last item, which is a dict.
pub data LastSort : Items → Value → Type 0 where
  only :
      {hit : Fields} {cursor : Value}
      → get "sort" hit ≡ cursor
      → LastSort (cons (obj hit) nil) cursor
  later :
      {v w : Value} {rest : Items} {cursor : Value}
      → LastSort (cons w rest) cursor
      → LastSort (cons v (cons w rest)) cursor

-- A cursor is a list with a member, and not the cursor before.
abbrev pub IsCursor : Value → Value → Type 0
IsCursor after cursor =
    (v : Value) × (vs : Items) × (cursor ≡ arr (cons v vs)) × (value_beq cursor after ≡ false)

-- Each item is a dict whose `_source` is a dict, and the hits are those dicts, in order.
pub data Hits : Items → List Fields → Type 0 where
  no_hits : Hits nil []
  with_source :
      {fs source : Fields} {rest : Items} {hits : List Fields}
      → get "_source" fs ≡ obj source
      → Hits rest hits
      → Hits (cons (obj fs) rest) (fs ∷ hits)

last_sort-LastSort :
    (v : Value) (rest : Items) (cursor : Value)
    → last_sort v rest ≡ got cursor
    → LastSort (cons v rest) cursor
unfolding last_sort
last_sort-LastSort (obj hit) nil cursor h = only (got-injective (get "sort" hit) cursor h)
last_sort-LastSort (arr items) nil cursor h = absurd (raised_got other_error cursor h)
last_sort-LastSort (str s) nil cursor h = absurd (raised_got other_error cursor h)
last_sort-LastSort (int n) nil cursor h = absurd (raised_got other_error cursor h)
last_sort-LastSort (real x) nil cursor h = absurd (raised_got other_error cursor h)
last_sort-LastSort (bool b) nil cursor h = absurd (raised_got other_error cursor h)
last_sort-LastSort (datetime d) nil cursor h = absurd (raised_got other_error cursor h)
last_sort-LastSort null nil cursor h = absurd (raised_got other_error cursor h)
last_sort-LastSort v (cons w rest) cursor h = later (last_sort-LastSort w rest cursor h)

LastSort-last_sort :
    {v : Value} {rest : Items} {cursor : Value}
    → LastSort (cons v rest) cursor
    → last_sort v rest ≡ got cursor
unfolding last_sort
LastSort-last_sort (only e) = ap got e
LastSort-last_sort (later l) = LastSort-last_sort l

not-true : (b : Bool) → not b ≡ true → b ≡ false
not-true false h = refl
not-true true h = absurd (distinct_bools (sym h))

is_cursor-IsCursor : (after cursor : Value) → is_cursor after cursor ≡ true → IsCursor after cursor
unfolding is_cursor
is_cursor-IsCursor after (arr (cons v vs)) h =
    (v, vs, refl, not-true (value_beq (arr (cons v vs)) after) h)
is_cursor-IsCursor after (arr nil) h = absurd (distinct_bools (sym h))
is_cursor-IsCursor after (obj fs) h = absurd (distinct_bools (sym h))
is_cursor-IsCursor after (str s) h = absurd (distinct_bools (sym h))
is_cursor-IsCursor after (int n) h = absurd (distinct_bools (sym h))
is_cursor-IsCursor after (real x) h = absurd (distinct_bools (sym h))
is_cursor-IsCursor after (bool b) h = absurd (distinct_bools (sym h))
is_cursor-IsCursor after (datetime d) h = absurd (distinct_bools (sym h))
is_cursor-IsCursor after null h = absurd (distinct_bools (sym h))

IsCursor-is_cursor : (after cursor : Value) → IsCursor after cursor → is_cursor after cursor ≡ true
unfolding is_cursor
IsCursor-is_cursor after cursor (v, vs, same, new) = rw same (rw (rw same at new) refl)

next_page-cases :
    (after : Value) (items : Items) (cursor : Value) (new : Bool) (read : Page)
    → (if new
        then got (page items cursor)
        else raised (incomplete_read "missing_or_repeated_page_cursor"))
      ≡ got read
    → (new ≡ true) × (page items cursor ≡ read)
next_page-cases after items cursor true read h = (refl, got-injective (page items cursor) read h)
next_page-cases after items cursor false read h = absurd (raised_got _ read h)

page-items : (xs ys : Items) (c d : Value) → page xs c ≡ page ys d → (xs ≡ ys) × (c ≡ d)
page-items xs ys c d h = (cc, cc)

page_last : (xs : Items) (c : Value) → page xs c ≡ last_page → ⊥
page_last xs c h = cc

last_page_of : (xs : Items) (c : Value) → last_page ≡ page xs c → ⊥
last_page_of xs c h = cc

pub page_of_hits-last :
    (after : Value) (items : Items) → page_of_hits after items ≡ got last_page → items ≡ nil
page_of_hits-last after nil h = refl
page_of_hits-last after (cons v rest) h =
    let (cursor, sorted, made) =
      bind-got (last_sort v rest) (next_page after (cons v rest)) last_page h in
    let (new, same) =
      next_page-cases after (cons v rest) cursor (is_cursor after cursor) last_page made in
    absurd (page_last (cons v rest) cursor same)

pub page_of_hits-page :
    (after : Value) (items own : Items) (cursor : Value)
    → page_of_hits after items ≡ got (page own cursor)
    → (items ≡ own) × LastSort items cursor × IsCursor after cursor
page_of_hits-page after nil own cursor h =
    absurd (last_page_of own cursor (got-injective last_page (page own cursor) h))
page_of_hits-page after (cons v rest) own cursor h =
    let (c, sorted, made) =
      bind-got (last_sort v rest) (next_page after (cons v rest)) (page own cursor) h in
    let (new, same) =
      next_page-cases after (cons v rest) c (is_cursor after c) (page own cursor) made in
    let (items_same, cursor_same) = page-items (cons v rest) own c cursor same in
    (
      items_same,
      last_sort-LastSort v rest cursor (sorted ∙ ap got cursor_same),
      subst (IsCursor after) cursor_same (is_cursor-IsCursor after c new),
    )

pub LastSort-page_of_hits :
    (after : Value) (items : Items) (cursor : Value)
    → LastSort items cursor
    → IsCursor after cursor
    → page_of_hits after items ≡ got (page items cursor)
LastSort-page_of_hits after (cons v rest) cursor l new =
    rw (LastSort-last_sort l, IsCursor-is_cursor after cursor new) refl
LastSort-page_of_hits after nil cursor l new = elim l [ ]

has_source-obj : (v : Value) → has_source v ≡ true → (source : Fields) × (v ≡ obj source)
has_source-obj (obj source) h = (source, refl)
has_source-obj (arr items) h = absurd (distinct_bools (sym h))
has_source-obj (str s) h = absurd (distinct_bools (sym h))
has_source-obj (int n) h = absurd (distinct_bools (sym h))
has_source-obj (real x) h = absurd (distinct_bools (sym h))
has_source-obj (bool b) h = absurd (distinct_bools (sym h))
has_source-obj (datetime d) h = absurd (distinct_bools (sym h))
has_source-obj null h = absurd (distinct_bools (sym h))

some_fault :
    (fault : Fault) (hits own : List Fields)
    → ◌≡◌ {A = List Fields × Option Fault} (own, some fault) (hits, none)
    → ⊥
some_fault fault hits own h = no_fault (ap (λ p. p.1) h)
  where
    no_fault : some fault ≡ none → ⊥
    no_fault e = cc

yielded_one-cases :
    (fs : Fields) (sourced : Bool) (others : List Fields × Option Fault) (hits : List Fields)
    → yielded_one fs sourced others ≡ (hits, none)
    → (sourced ≡ true) × ((more : List Fields) × (others ≡ (more, none)) × (fs ∷ more ≡ hits))
yielded_one-cases fs false others hits h = absurd (some_fault _ hits [] h)
yielded_one-cases fs true (more, some fault) hits h = absurd (some_fault fault hits (fs ∷ more) h)
yielded_one-cases fs true (more, none) hits h = (refl, (more, refl, ap (λ p. p.0) h))

pub yield_hits-Hits :
    (items : Items) (hits : List Fields) → yield_hits items ≡ (hits, none) → Hits items hits
unfolding yield_hits
yield_hits-Hits nil hits h = subst (Hits nil) (ap (λ p. p.0) h) no_hits
yield_hits-Hits (cons (obj fs) rest) hits h =
    let (sourced, (more, others, same)) =
      yielded_one-cases fs (has_source (get "_source" fs)) (yield_hits rest) hits h in
    let (source, is_dict) = has_source-obj (get "_source" fs) sourced in
    subst (Hits (cons (obj fs) rest)) same (with_source is_dict (yield_hits-Hits rest more others))
yield_hits-Hits (cons (arr items) rest) hits h = absurd (some_fault other_error hits [] h)
yield_hits-Hits (cons (str s) rest) hits h = absurd (some_fault other_error hits [] h)
yield_hits-Hits (cons (int n) rest) hits h = absurd (some_fault other_error hits [] h)
yield_hits-Hits (cons (real x) rest) hits h = absurd (some_fault other_error hits [] h)
yield_hits-Hits (cons (bool b) rest) hits h = absurd (some_fault other_error hits [] h)
yield_hits-Hits (cons (datetime d) rest) hits h = absurd (some_fault other_error hits [] h)
yield_hits-Hits (cons null rest) hits h = absurd (some_fault other_error hits [] h)

pub Hits-yield_hits :
    {items : Items} {hits : List Fields} → Hits items hits → yield_hits items ≡ (hits, none)
unfolding yield_hits
Hits-yield_hits no_hits = refl
Hits-yield_hits (with_source is_dict others) = rw (is_dict, Hits-yield_hits others) refl
