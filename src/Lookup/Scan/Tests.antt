-- ===== src/Lookup/Scan/Tests.antt =====
-- The laws of the bounded reads, applied to one page of one hit and an empty one.
use integrated_backup_monito.Prelude.{
  ℕ, zero, suc, ◌≡◌, ◌↔◌, refl, true, Option, none, some, List, [], ◌∷◌,
}
use integrated_backup_monito.Prelude.Int.{pos}
use integrated_backup_monito.Prelude.Text.{is_digit, without_prefix}
use integrated_backup_monito.Value.{
  Value, int, str, arr, obj, Items, nil, cons, Fields, fields, find, truthy, get, value_beq,
}
use integrated_backup_monito.Writer.Month.{is_month}
use integrated_backup_monito.Lookup.Scan.{
  Fault, other_error, Try, got, raised, Request, is_explicit, is_readable_index, shards_failed,
  pages, is_partial_answer, read_page, hits_of, last_sort, is_cursor, yield_hits, scan, read_batch,
}
use integrated_backup_monito.Lookup.Scan.Closing.{IsClosed, scan-IsClosed}
use integrated_backup_monito.Lookup.Scan.Complete.{IsBatch, read_batch_iff}

abbrev opened : Fields
unfolding fields
opened = fields (("id", str "p0") ∷ ("_shards", obj (fields (("failed", int (pos 0)) ∷ []))) ∷ [])

abbrev hit : Fields
unfolding fields
hit = fields (("_source", obj (fields [])) ∷ ("sort", arr (cons (int (pos 4)) nil)) ∷ [])

abbrev answer_with : Items → Fields
unfolding fields
answer_with hits =
    fields (("_shards", obj (fields [])) ∷ ("hits", obj (fields (("hits", arr hits) ∷ []))) ∷ [])

two_pages : ℕ → Request → Try Fields
two_pages zero request = got (answer_with (cons (obj hit) nil))
two_pages (suc n) request = got (answer_with nil)

abbrev indices : List Value
indices = str "nw-ops-raw-core-2026-01" ∷ str "nw-core-job-run-2026-01" ∷ []

allowed : is_explicit indices ≡ true
unfolding is_explicit is_readable_index without_prefix is_month is_digit
allowed = refl

found : find "id" opened ≡ some (str "p0")
unfolding find fields opened
found = refl

closes_well : Value → Option Fault
closes_well pit = none

scan-IsClosed_example :
    IsClosed two_pages 0 3 (str "p0") (scan (got opened) two_pages closes_well 3 indices)
scan-IsClosed_example =
    scan-IsClosed opened (str "p0") two_pages closes_well 3 indices allowed found

read_batch_iff_example :
    (read_batch (got opened) two_pages closes_well 3 indices ≡ got (hit ∷ []))
    ↔ IsBatch opened (str "p0") two_pages closes_well 3 (hit ∷ [])
read_batch_iff_example =
    read_batch_iff opened (str "p0") two_pages closes_well 3 indices (hit ∷ []) allowed found

-- A point in time that cannot be closed takes the whole batch with it.
never_closes : Value → Option Fault
never_closes pit = some other_error

lost_batch : read_batch (got opened) two_pages never_closes 3 indices ≡ raised other_error
unfolding never_closes read_batch scan is_explicit is_readable_index without_prefix is_month
    is_digit find fields opened shards_failed truthy pages two_pages read_page is_partial_answer get
    hits_of last_sort is_cursor value_beq yield_hits answer_with hit
lost_batch = refl
