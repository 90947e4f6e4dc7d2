-- ===== src/Collector/Status/Tests.antt =====
-- The law of the last results, applied to two classes of one collector.
use integrated_backup_monito.Prelude.{
  String, ◌≡◌, Bool, true, false, ◌&&◌, none, List, [], ◌∷◌, ◌==◌, string_eq,
}
use integrated_backup_monito.Prelude.Dict.{lookup}
use integrated_backup_monito.Value.{end}
use integrated_backup_monito.Writer.{CollectionResult}
use integrated_backup_monito.Collector.Status.{Results, record_results}
use integrated_backup_monito.Collector.Status.Latest.{latest, of_class, record_results-latest}

abbrev result_of : String → Bool → CollectionResult
result_of class ok = record {
  collector = "nw-core";
  target_type = "Networker";
  protocol = "rest";
  collected_at = 172800000000;
  ok = ok;
  payload = end;
  error = none;
  skipped = false;
  skip_reason = none;
  collection_class = class;
}

abbrev three : List CollectionResult
three = result_of "jobs" false ∷ result_of "backups" true ∷ result_of "jobs" true ∷ []

abbrev no_results : Results
no_results = record { last = []; by_class = [] }

record_results-latest_example :
    (lookup "nw-core" (record_results three no_results).last
      ≡ latest (λ r. "nw-core" == r.collector) three (lookup "nw-core" no_results.last))
    × (of_class "nw-core" "backups" (record_results three no_results)
        ≡ latest
            (λ r. ("nw-core" == r.collector) && ("backups" == r.collection_class))
            three
            (of_class "nw-core" "backups" no_results))
record_results-latest_example = record_results-latest "nw-core" "backups" three no_results
