-- ===== src/Lookup/Scan/Answer.antt =====
-- What an answer of the transport has to hold for a page of a scan: read off the answer itself, and what
-- `scan` makes of it.
use integrated_backup_monito.Prelude.{
  ◌≡◌, ◌⊎◌, refl, ap, ◌∙◌, Bool, true, false, ◌||◌, Option, none, some, String, distinct_bools,
  Option-cases, inl, inr,
}
use integrated_backup_monito.Prelude.Int.{pos}
use integrated_backup_monito.Value.{
  Value, null, bool, int, real, str, datetime, arr, obj, Items, Fields, end, find, get, get_or,
  truthy,
}
use integrated_backup_monito.Lookup.Scan.{
  Fault, other_error, Try, got, raised, ◌>>=◌, failed_of, shards_failed, partial_by,
  is_partial_answer, member, item_of, list_of, hits_of, Page, page_of_hits, unless_partial,
  read_page,
}

-- No shard failed: `_shards` is missing, or a dict whose `failed` is missing or not truthy.
abbrev pub NoFailedShards : Fields → Type 0
NoFailedShards answer =
    (find "_shards" answer ≡ none)
    ⊎ ((shards : Fields) × (find "_shards" answer ≡ some (obj shards))
        × (truthy (get_or "failed" (int (pos 0)) shards) ≡ false))

-- A whole answer with these items under `hits.hits`.
pub record IsWhole (answer : Fields) (items : Items) : Type 0 where
  pub in_time : truthy (get "timed_out" answer) ≡ false
  pub shards : NoFailedShards answer
  pub not_early : truthy (get "terminated_early" answer) ≡ false
  pub listed :
      (outer : Fields) × (find "hits" answer ≡ some (obj outer))
      × (find "hits" outer ≡ some (arr items))

module _ {A : Type 0} where
  pub got-injective : (a b : A) → got a ≡ got b → a ≡ b
  got-injective a b h = cc

  pub raised_got : (fault : Fault) (a : A) → raised fault ≡ got a → ⊥
  raised_got fault a h = cc

pub bind-got :
    {A B : Type 0} (t : Try A) (f : A → Try B) (b : B)
    → (t >>= f) ≡ got b
    → (a : A) × (t ≡ got a) × (f a ≡ got b)
bind-got (got a) f b h = (a, refl, h)
bind-got (raised fault) f b h = absurd (raised_got fault b h)

neither : (a b : Bool) → (a || b) ≡ false → (a ≡ false) × (b ≡ false)
neither false b h = (refl, h)
neither true b h = absurd (distinct_bools h)

failed_of-obj :
    (v failed : Value)
    → failed_of v ≡ got failed
    → (shards : Fields) × (v ≡ obj shards) × (get_or "failed" (int (pos 0)) shards ≡ failed)
failed_of-obj (obj shards) failed h = (shards, refl, got-injective _ failed h)
failed_of-obj (arr items) failed h = absurd (raised_got other_error failed h)
failed_of-obj (str s) failed h = absurd (raised_got other_error failed h)
failed_of-obj (int n) failed h = absurd (raised_got other_error failed h)
failed_of-obj (real x) failed h = absurd (raised_got other_error failed h)
failed_of-obj (bool b) failed h = absurd (raised_got other_error failed h)
failed_of-obj (datetime d) failed h = absurd (raised_got other_error failed h)
failed_of-obj null failed h = absurd (raised_got other_error failed h)

pub shards_failed-whole :
    (answer : Fields) (failed : Value)
    → shards_failed answer ≡ got failed
    → truthy failed ≡ false
    → NoFailedShards answer
unfolding shards_failed
shards_failed-whole answer failed h whole = elim (Option-cases (find "_shards" answer)) [
  | inl missing ↦ inl missing
  | inr (v, found) ↦
      let (shards, same, counted) = failed_of-obj v failed (rw (found, get_or) at h) in
      inr (shards, found ∙ ap some same, ap truthy counted ∙ whole)
]

zero_whole : truthy (get_or "failed" (int (pos 0)) end) ≡ false
unfolding truthy find
zero_whole = refl

pub whole-shards_failed :
    (answer : Fields)
    → NoFailedShards answer
    → (failed : Value) × (shards_failed answer ≡ got failed) × (truthy failed ≡ false)
unfolding shards_failed
whole-shards_failed answer (inl missing) =
    (get_or "failed" (int (pos 0)) end, rw (missing, get_or) refl, zero_whole)
whole-shards_failed answer (inr (shards, found, whole)) =
    (get_or "failed" (int (pos 0)) shards, rw (found, get_or) refl, whole)

partial_by-false :
    (timed : Bool) (early : Value) (failed : Try Value)
    → partial_by timed early failed ≡ got false
    → (timed ≡ false)
      × (truthy early ≡ false)
      × ((v : Value) × (failed ≡ got v) × (truthy v ≡ false))
partial_by-false true early failed h = absurd (distinct_bools (got-injective true false h))
partial_by-false false early (raised fault) h = absurd (raised_got fault false h)
partial_by-false false early (got v) h =
    let (none_failed, on_time) =
      neither (truthy v) (truthy early) (got-injective (truthy v || truthy early) false h) in
    (refl, on_time, (v, refl, none_failed))

member-some : (o : Option Value) (v : Value) → member o ≡ got v → o ≡ some v
member-some none v h = absurd (raised_got other_error v h)
member-some (some w) v h = ap some (got-injective w v h)

item_of-obj :
    (k : String) (v w : Value)
    → item_of k v ≡ got w
    → (fs : Fields) × (v ≡ obj fs) × (find k fs ≡ some w)
item_of-obj k (obj fs) w h = (fs, refl, member-some (find k fs) w h)
item_of-obj k (arr items) w h = absurd (raised_got other_error w h)
item_of-obj k (str s) w h = absurd (raised_got other_error w h)
item_of-obj k (int n) w h = absurd (raised_got other_error w h)
item_of-obj k (real x) w h = absurd (raised_got other_error w h)
item_of-obj k (bool b) w h = absurd (raised_got other_error w h)
item_of-obj k (datetime d) w h = absurd (raised_got other_error w h)
item_of-obj k null w h = absurd (raised_got other_error w h)

list_of-arr : (v : Value) (items : Items) → list_of v ≡ got items → v ≡ arr items
list_of-arr (arr xs) items h = ap arr (got-injective xs items h)
list_of-arr (obj fs) items h = absurd (raised_got _ items h)
list_of-arr (str s) items h = absurd (raised_got _ items h)
list_of-arr (int n) items h = absurd (raised_got _ items h)
list_of-arr (real x) items h = absurd (raised_got _ items h)
list_of-arr (bool b) items h = absurd (raised_got _ items h)
list_of-arr (datetime d) items h = absurd (raised_got _ items h)
list_of-arr null items h = absurd (raised_got _ items h)

hits_of-listed :
    (answer : Fields) (items : Items)
    → hits_of answer ≡ got items
    → (outer : Fields) × (find "hits" answer ≡ some (obj outer))
      × (find "hits" outer ≡ some (arr items))
unfolding hits_of
hits_of-listed answer items h =
    let (inner, a, b) = bind-got (item_of "hits" (obj answer) >>= item_of "hits") list_of items h in
    let (v, c, d) = bind-got (item_of "hits" (obj answer)) (item_of "hits") inner a in
    let found = member-some (find "hits" answer) v c in
    let (outer, same, listed) = item_of-obj "hits" v inner d in
    (outer, found ∙ ap some same, listed ∙ ap some (list_of-arr inner items b))

read_page-cases :
    (after : Value) (answer : Fields) (partial : Try Bool) (read : Page)
    → unless_partial after answer partial ≡ got read
    → (partial ≡ got false)
      × ((items : Items) × (hits_of answer ≡ got items) × (page_of_hits after items ≡ got read))
read_page-cases after answer (raised fault) read h = absurd (raised_got fault read h)
read_page-cases after answer (got true) read h = absurd (raised_got _ read h)
read_page-cases after answer (got false) read h =
    (refl, (bind-got (hits_of answer) (page_of_hits after) read h))

-- A page that was read comes from a whole answer.
pub read_page-IsWhole :
    (after : Value) (answer : Fields) (read : Page)
    → read_page after answer ≡ got read
    → (items : Items) × IsWhole answer items × (page_of_hits after items ≡ got read)
unfolding read_page is_partial_answer
read_page-IsWhole after answer read h =
    let (complete, (items, taken, made)) =
      read_page-cases after answer
        (partial_by (truthy (get "timed_out" answer)) (get "terminated_early" answer)
          (shards_failed answer))
        read h in
    let (in_time, not_early, (v, counted, whole)) =
      partial_by-false (truthy (get "timed_out" answer)) (get "terminated_early" answer)
        (shards_failed answer) complete in
    (
      items,
      record {
        in_time = in_time;
        shards = shards_failed-whole answer v counted whole;
        not_early = not_early;
        listed = hits_of-listed answer items taken;
      },
      made,
    )

pub IsWhole-read_page :
    (after : Value) (answer : Fields) (items : Items)
    → IsWhole answer items
    → read_page after answer ≡ page_of_hits after items
unfolding read_page is_partial_answer hits_of
IsWhole-read_page after answer items whole =
    let (failed, counted, none_failed) = whole-shards_failed answer whole.shards in
    let (outer, found, listed) = whole.listed in
    rw (whole.in_time, counted, none_failed, whole.not_early, found, listed) refl
