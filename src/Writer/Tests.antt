-- ===== src/Writer/Tests.antt =====
-- The writer's theorems, applied to a NetWorker result with a job.
use integrated_backup_monito.Prelude.{
  ◌<>◌, ◌≡◌, refl, String, true, none, [], ◌∷◌, string_eq, contains, false,
}
use integrated_backup_monito.Prelude.Text.{lower, upper}
use integrated_backup_monito.Value.{str, obj, arr, cons, nil, Fields, fields}
use integrated_backup_monito.Value.Example.{plain}
use integrated_backup_monito.Writer.{CollectionResult}
use integrated_backup_monito.Writer.Month.{is_month}
use integrated_backup_monito.Writer.Routing.{derived_index, networker_entity_segment}
use integrated_backup_monito.Writer.Laws.{derived_index-parts}

abbrev job : Fields
unfolding fields
job = fields (
    ("job_id", str "7")
    ∷ ("security_domain", str "core")
    ∷ ("start_time", str "2026-01-02T03:04:05Z")
    ∷ [])

abbrev jobs_result : CollectionResult
unfolding fields
jobs_result = record {
  collector = "nw-core";
  target_type = "Networker";
  protocol = "rest";
  collected_at = 172800000000;
  ok = true;
  payload = fields (("jobs", arr (cons (obj job) nil)) ∷ []);
  error = none;
  skipped = false;
  skip_reason = none;
  collection_class = "jobs";
}

this_month-is_month : is_month "2026-01" ≡ true
unfolding is_month
this_month-is_month = refl

derived_index-parts_example :
    (domain : String) × (own_month : String) × (derived_index plain "2026-01" job
      ≡ lower (
          "NW-"
          <> (upper domain <> ("-" <> (networker_entity_segment plain job <> ("-" <> own_month))))))
    × (contains domain ("core" ∷ "chnl" ∷ "info" ∷ "unmapped" ∷ []) ≡ true)
    × (is_month own_month ≡ true)
derived_index-parts_example = derived_index-parts plain job "2026-01" this_month-is_month
