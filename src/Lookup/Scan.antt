-- ===== src/Lookup/Scan.antt =====
-- apps/lookups/networker_action/adapters.py, `ElasticsearchReadAdapter`: the bounded reads of a point in
-- time. The transport is a parameter: what it opens, what its search number n answers to a request, and
-- what it raises, if anything, when a point in time is closed.
-- The search's fixed arguments (query, size, sort) are not here: they are the same at each page.
mod Answer
mod Hit
mod Reads
mod Complete
mod Closing
mod Tests
use integrated_backup_monito.Prelude.{
  ℕ, zero, suc, ◌<>◌, String, Bool, true, false, ◌&&◌, ◌||◌, not, Option, none, some, List, [], ◌∷◌,
  ◌++◌, all, any, leb, if◌then◌else◌,
}
use integrated_backup_monito.Prelude.Text.{without_prefix}
use integrated_backup_monito.Value.{
  Value, null, int, str, arr, obj, Items, nil, cons, Fields, end, find, get, get_or, truthy,
  value_beq,
}
use integrated_backup_monito.Prelude.Int.{pos}
use integrated_backup_monito.Writer.Month.{is_month}

-- Why a scan stops: `IncompleteRead`, `ValueError`, or another exception (of the transport, or of an
-- answer that has not the shape that the code reads).
pub data Fault : Type 0 where
  incomplete_read : String → Fault
  value_error : String → Fault
  other_error : Fault

pub data Try {ℓ} (A : Type ℓ) : Type ℓ where
  got : A → Try A
  raised : Fault → Try A

infixl 5 ◌>>=◌
abbrev pub ◌>>=◌ {ℓ κ} : {A : Type ℓ} {B : Type κ} → Try A → (A → Try B) → Try B
got a >>= f = f a
raised e >>= f = raised e

-- `ElasticsearchReadAdapter.__init__`
abbrev pub in_bounds : ℕ → ℕ → Bool
in_bounds page_size max_pages = leb 1 page_size && leb page_size 1000 && leb 1 max_pages

-- The pattern of the indices; its month is the one of `is_month`.
abbrev prefixes : List String
prefixes =
    "nw-ops-raw-core-" ∷ "nw-ops-raw-chnl-" ∷ "nw-ops-raw-info-" ∷ "nw-core-job-run-"
    ∷ "nw-chnl-job-run-" ∷ "nw-info-job-run-" ∷ "nw-unmapped-job-run-" ∷ []

abbrev month_after : Option String → Bool
month_after none = false
month_after (some rest) = is_month rest

unfoldable pub is_readable_index : Value → Bool
unfolding without_prefix is_month
is_readable_index (str index) = any (λ p. month_after (without_prefix p index)) prefixes
is_readable_index _ = false

unfoldable pub is_explicit : List Value → Bool
unfolding is_readable_index
is_explicit [] = false
is_explicit (i ∷ indices) = all is_readable_index (i ∷ indices)

-- `d.get("_shards", {}).get("failed", 0)`
abbrev pub failed_of : Value → Try Value
failed_of (obj shards) = got (get_or "failed" (int (pos 0)) shards)
failed_of _ = raised other_error

unfoldable pub shards_failed : Fields → Try Value
unfolding find
shards_failed answer = failed_of (get_or "_shards" (obj end) answer)

-- The three signs of a partial answer, read from left to right as far as needed.
abbrev pub partial_by : Bool → Value → Try Value → Try Bool
partial_by true early failed = got true
partial_by false early (raised fault) = raised fault
partial_by false early (got failed) = got (truthy failed || truthy early)

unfoldable pub is_partial_answer : Fields → Try Bool
is_partial_answer answer =
    partial_by (truthy (get "timed_out" answer)) (get "terminated_early" answer)
      (shards_failed answer)

-- `response["hits"]["hits"]`, and that it is a list
abbrev pub member : Option Value → Try Value
member none = raised other_error
member (some v) = got v

abbrev pub item_of : String → Value → Try Value
item_of k (obj fs) = member (find k fs)
item_of k _ = raised other_error

abbrev pub list_of : Value → Try Items
list_of (arr items) = got items
list_of _ = raised (incomplete_read "malformed_hits")

unfoldable pub hits_of : Fields → Try Items
unfolding find
hits_of answer = item_of "hits" (obj answer) >>= item_of "hits" >>= list_of

-- `hits[-1].get("sort")` of a page that has a hit
abbrev pub sort_of : Value → Try Value
sort_of (obj hit) = got (get "sort" hit)
sort_of _ = raised other_error

unfoldable pub last_sort : Value → Items → Try Value
unfolding get
last_sort hit nil = sort_of hit
last_sort hit (cons next rest) = last_sort next rest

-- A cursor is a list with a member that is not the cursor of the page before.
unfoldable pub is_cursor : Value → Value → Bool
unfolding value_beq
is_cursor after (arr (cons v vs)) = not (value_beq (arr (cons v vs)) after)
is_cursor after _ = false

-- The hits that are yielded before the first one that has no source.
abbrev pub has_source : Value → Bool
has_source (obj source) = true
has_source _ = false

abbrev pub yielded_one : Fields → Bool → List Fields × Option Fault → List Fields × Option Fault
yielded_one hit true (hits, fault) = (hit ∷ hits, fault)
yielded_one hit false rest = ([], some (incomplete_read "source_unavailable"))

unfoldable pub yield_hits : Items → List Fields × Option Fault
unfolding get
yield_hits nil = ([], none)
yield_hits (cons (obj hit) rest) =
    let others = yield_hits rest in yielded_one hit (has_source (get "_source" hit)) others
yield_hits (cons _ rest) = ([], some other_error)

-- What a page holds: nothing more, or hits and the cursor after them.
pub data Page : Type 0 where
  last_page : Page
  page : Items → Value → Page

abbrev pub next_page : Value → Items → Value → Try Page
next_page after hits cursor =
    if is_cursor after cursor
    then got (page hits cursor)
    else raised (incomplete_read "missing_or_repeated_page_cursor")

abbrev pub page_of_hits : Value → Items → Try Page
page_of_hits after nil = got last_page
page_of_hits after (cons hit rest) = last_sort hit rest >>= next_page after (cons hit rest)

abbrev pub unless_partial : Value → Fields → Try Bool → Try Page
unless_partial after answer (raised fault) = raised fault
unless_partial after answer (got true) = raised (incomplete_read "partial_or_timed_out_search")
unless_partial after answer (got false) = hits_of answer >>= page_of_hits after

unfoldable pub read_page : Value → Fields → Try Page
read_page after answer = unless_partial after answer (is_partial_answer answer)

-- A request of the transport: the point in time, and the cursor, null at the first page.
pub record Request : Type 0 where
  pub pit : Value
  pub after : Value

-- What a scan yields, asks, closes and ends with.
pub record Scanned : Type 0 where
  pub hits : List Fields
  pub searches : List Request
  pub closed : List Value
  pub fault : Option Fault

abbrev pub stop : Value → Option Fault → Scanned
stop pit fault = record { hits = []; searches = []; closed = pit ∷ []; fault = fault }

-- Before what follows, and after a request.
abbrev pub before : List Fields → Scanned → Scanned
before hits rest = record {
  hits = hits ++ rest.hits;
  searches = rest.searches;
  closed = rest.closed;
  fault = rest.fault;
}

abbrev pub asked : Request → Scanned → Scanned
asked request rest = record {
  hits = rest.hits;
  searches = request ∷ rest.searches;
  closed = rest.closed;
  fault = rest.fault;
}

-- The last page's hits may fault; then nothing follows.
abbrev pub yielding : Value → List Fields × Option Fault → Scanned → Scanned
yielding pit (hits, some fault) rest = before hits (stop pit (some fault))
yielding pit (hits, none) rest = before hits rest

-- The loop over the pages, with those that are left. `continue` is the loop after this page.
abbrev pub turn : Value → (Value → Scanned) → Try Page → Scanned
turn pit continue (raised fault) = stop pit (some fault)
turn pit continue (got last_page) = stop pit none
turn pit continue (got (page hits cursor)) = yielding pit (yield_hits hits) (continue cursor)

-- An answer keeps the point in time or names a new one.
abbrev pub pit_after : Value → Fields → Value
pit_after pit answer = get_or "pit_id" pit answer

abbrev pub answered : Value → Value → (Value → Value → Scanned) → Try Fields → Scanned
answered pit after continue (raised fault) = stop pit (some fault)
answered pit after continue (got answer) =
    turn (pit_after pit answer) (continue (pit_after pit answer)) (read_page after answer)

module _ (search : ℕ → Request → Try Fields) where
  unfoldable pub pages : ℕ → ℕ → Value → Value → Scanned
  pages n zero pit after = stop pit (some (incomplete_read "page_budget_exhausted"))
  pages n (suc left) pit after =
      let request : Request = record { pit = pit; after = after } in
      asked request
        (answered pit after (λ new cursor. pages (suc n) left new cursor) (search n request))

-- Nothing was opened.
abbrev pub refused : Fault → Scanned
refused fault = record { hits = []; searches = []; closed = []; fault = some fault }

abbrev pub opened_pages : (ℕ → Request → Try Fields) → ℕ → Value → Try Value → Scanned
opened_pages search max_pages pit (raised fault) = stop pit (some fault)
opened_pages search max_pages pit (got failed) =
    if truthy failed
    then stop pit (some (incomplete_read "partial_pit_open"))
    else pages search 0 max_pages pit null

-- The `finally`: the point in time that is held is closed, and what that raises takes the place of the
-- scan's own end.
abbrev pub fault_of_close : Option Fault → Option Fault → Option Fault
fault_of_close none fault = fault
fault_of_close (some raised_on_close) fault = some raised_on_close

abbrev pub fault_after : (Value → Option Fault) → List Value → Option Fault → Option Fault
fault_after close [] fault = fault
fault_after close (pit ∷ pits) fault = fault_of_close (close pit) fault

abbrev pub finally_close : (Value → Option Fault) → Scanned → Scanned
finally_close close s = record {
  hits = s.hits;
  searches = s.searches;
  closed = s.closed;
  fault = fault_after close s.closed s.fault;
}

-- `scan`, read to its end. `opened["id"]` comes before the `try`.
abbrev pub with_id :
    (ℕ → Request → Try Fields) → (Value → Option Fault) → ℕ → Fields → Option Value → Scanned
with_id search close max_pages opened none = refused other_error
with_id search close max_pages opened (some pit) =
    finally_close close (opened_pages search max_pages pit (shards_failed opened))

abbrev pub with_pit : (ℕ → Request → Try Fields) → (Value → Option Fault) → ℕ → Try Fields → Scanned
with_pit search close max_pages (raised fault) = refused fault
with_pit search close max_pages (got opened) =
    with_id search close max_pages opened (find "id" opened)

unfoldable pub scan :
    Try Fields → (ℕ → Request → Try Fields) → (Value → Option Fault) → ℕ → List Value → Scanned
scan open_point_in_time search close_point_in_time max_pages indices =
    if is_explicit indices
    then with_pit search close_point_in_time max_pages open_point_in_time
    else refused (value_error "explicit_monthly_raw_or_job_run_indices_required")

-- `read_batch`: no part of a scan that failed is returned.
abbrev pub batch_of : Scanned → Try (List Fields)
batch_of scanned = elim scanned.fault [ some fault ↦ raised fault | none ↦ got scanned.hits ]

unfoldable pub read_batch :
    Try Fields
    → (ℕ → Request → Try Fields)
    → (Value → Option Fault)
    → ℕ
    → List Value
    → Try (List Fields)
read_batch open_point_in_time search close_point_in_time max_pages indices =
    batch_of (scan open_point_in_time search close_point_in_time max_pages indices)
