-- ===== src/Collector/Status.antt =====
-- apps/scheduler.py: the last results that the API shows, and `run_once`.
pub mod Latest
mod Tests
use integrated_backup_monito.Prelude.{String, Option, none, some, List, [], ◌∷◌, string_eq}
use integrated_backup_monito.Prelude.Dict.{Dict, lookup, insert, or_default}
use integrated_backup_monito.Value.{Value, Fields, end, field, find}
use integrated_backup_monito.Writer.{CollectionResult}

-- `_status_result`: the three keys, in this order, where the payload has them.
abbrev add_found : String → Option Value → Fields → Fields
add_found key none rest = rest
add_found key (some v) rest = field key v rest

unfoldable pub status_payload : List String → Fields → Fields
unfolding find
status_payload [] payload = end
status_payload (key ∷ keys) payload = add_found key (find key payload) (status_payload keys payload)

abbrev pub status_keys : List String
status_keys = "summary" ∷ "collection_status" ∷ "endpoint_errors" ∷ []

unfoldable pub status_result : CollectionResult → CollectionResult
unfolding status_payload
status_result r = record {
  collector = r.collector;
  target_type = r.target_type;
  protocol = r.protocol;
  collected_at = r.collected_at;
  ok = r.ok;
  payload = status_payload status_keys r.payload;
  error = r.error;
  skipped = r.skipped;
  skip_reason = r.skip_reason;
  collection_class = r.collection_class;
}

-- `_last_results` and `_last_results_by_class`
pub record Results : Type 0 where
  pub last : Dict String CollectionResult
  pub by_class : Dict String (Dict String CollectionResult)

-- `_record_result`
unfoldable pub record_result : CollectionResult → Results → Results
unfolding status_result lookup insert
record_result r results = record {
  last = insert r.collector (status_result r) results.last;
  by_class =
      insert r.collector
        (insert r.collection_class (status_result r)
          (or_default [] (lookup r.collector results.by_class)))
        results.by_class;
}

-- The last loop of `run_once`.
unfoldable pub record_results : List CollectionResult → Results → Results
unfolding record_result
record_results [] results = results
record_results (r ∷ rs) results = record_results rs (record_result r results)
