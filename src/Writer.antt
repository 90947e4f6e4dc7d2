-- ===== src/Writer.antt =====
-- apps/models.py and apps/writers/elasticsearch.py: which documents a collection's result becomes, and
-- the index and the id of each. The bulk request itself is the client library's.
pub mod Month
pub mod Routing
mod Laws
mod Tests
use integrated_backup_monito.Prelude.{
  ℕ, ◌<>◌, String, Bool, true, false, ◌&&◌, ◌||◌, Option, none, some, List, [], ◌∷◌, ◌==◌,
  string_eq, if◌then◌else◌,
}
use integrated_backup_monito.Prelude.Int.{pos}
use integrated_backup_monito.Prelude.Text.{strip, lower, upper, is_empty}
use integrated_backup_monito.Value.{
  Datetime, aware, Value, null, bool, str, obj, Fields, Runtime, find, get, fields, merge, is_none,
  truthy, dict_or_empty, show,
}

-- `CollectionResult`, its payload a dict and `collected_at` an instant of UTC.
pub record CollectionResult : Type 0 where
  pub collector : String
  pub target_type : String
  pub protocol : String
  pub collected_at : ℕ
  pub ok : Bool
  pub payload : Fields
  pub error : Option String
  pub skipped : Bool
  pub skip_reason : Option String
  pub collection_class : String

abbrev pub optional_text : Option String → Value
optional_text none = null
optional_text (some s) = str s

-- `CollectionResult.skipped_result`
unfoldable pub skipped_result : ℕ → String → String → String → String → String → CollectionResult
skipped_result now collector target_type protocol reason collection_class = record {
  collector = collector;
  target_type = target_type;
  protocol = protocol;
  collected_at = now;
  ok = false;
  payload = fields [];
  error = none;
  skipped = true;
  skip_reason = some reason;
  collection_class = collection_class;
}

-- `CollectionResult.to_document`
abbrev pub timestamp_of : Runtime → CollectionResult → Value
timestamp_of rt r = str (rt.isoformat (aware r.collected_at (pos 0)))

unfoldable pub to_document : Runtime → CollectionResult → Fields
unfolding fields
to_document rt r = fields (
    ("@timestamp", timestamp_of rt r)
    ∷ ("collector", str r.collector)
    ∷ ("target_type", str r.target_type)
    ∷ ("protocol", str r.protocol)
    ∷ ("ok", bool r.ok)
    ∷ ("payload", obj r.payload)
    ∷ ("error", optional_text r.error)
    ∷ ("skipped", bool r.skipped)
    ∷ ("skip_reason", optional_text r.skip_reason)
    ∷ ("collection_class", str r.collection_class)
    ∷ [])

-- `_solution`
unfoldable pub solution : CollectionResult → String
unfolding lower
solution r =
    if r.target_type == "DD" || r.target_type == "DXi"
    then "vtl"
    else if r.target_type == "i6000"
    then "ptl"
    else if r.target_type == "Networker"
    then "networker"
    else if r.target_type == "ZFS"
    then "zfs"
    else lower r.target_type

-- `_index_family`
unfoldable pub index_family : CollectionResult → String
unfolding upper
index_family r =
    if r.target_type == "DD" || r.target_type == "DXi"
    then "VTL"
    else if r.target_type == "i6000"
    then "PTL"
    else if r.target_type == "Networker"
    then "NW"
    else if r.target_type == "ZFS"
    then "ZFS"
    else upper r.target_type

-- `_device_name`
abbrev first_text : Runtime → Fields → List String → String → String
first_text rt summary [] otherwise = otherwise
first_text rt summary (key ∷ keys) otherwise =
    let value = get key summary in
    let rest = first_text rt summary keys otherwise in
    if is_none value || is_empty (strip (show rt value)) then rest else strip (show rt value)

unfoldable pub device_name : Runtime → CollectionResult → String
unfolding get is_none strip show dict_or_empty
device_name rt r =
    first_text rt (dict_or_empty (get "summary" r.payload)) ("device_name" ∷ "server" ∷ "name" ∷ [])
      r.collector

-- `_raw_document_id`, `_current_document_id`
unfoldable pub raw_document_id : Runtime → CollectionResult → String
raw_document_id rt r = r.collector <> (":raw:" <> rt.strftime "%Y%m%dT%H%M%S.%fZ" r.collected_at)

unfoldable pub current_document_id : CollectionResult → String
current_document_id r = r.collector <> ":current"

-- `_raw_document`
unfoldable pub raw_document : Runtime → CollectionResult → Fields
unfolding to_document merge fields raw_document_id device_name solution
raw_document rt r = merge (to_document rt r) (
    fields (
      ("raw_document_id", str (raw_document_id rt r))
      ∷ ("device_name", str (device_name rt r))
      ∷ ("solution", str (solution r))
      ∷ ("document_family", str "raw")
      ∷ ("document_type", str "collection")
      ∷ ("processing_mode", str "elt")
      ∷ []))

-- `_current_document`
abbrev found_or : Option Value → Value → Value
found_or none otherwise = otherwise
found_or (some v) otherwise = v

unfoldable pub current_document : Runtime → CollectionResult → Fields
unfolding find get fields current_document_id device_name solution dict_or_empty
current_document rt r = fields (
    ("@timestamp", timestamp_of rt r)
    ∷ ("current_document_id", str (current_document_id r))
    ∷ ("collector", str r.collector)
    ∷ ("device_name", str (device_name rt r))
    ∷ ("target_type", str r.target_type)
    ∷ ("solution", str (solution r))
    ∷ ("protocol", str r.protocol)
    ∷ ("ok", bool r.ok)
    ∷ ("error", optional_text r.error)
    ∷ ("skipped", bool r.skipped)
    ∷ ("skip_reason", optional_text r.skip_reason)
    ∷ ("collection_class", str r.collection_class)
    ∷ (
      "collection_status",
      found_or (find "collection_status" r.payload) (str (if r.ok then "success" else "error")),
    )
    ∷ ("endpoint_errors", found_or (find "endpoint_errors" r.payload) (obj (fields [])))
    ∷ ("document_family", str "current")
    ∷ ("document_type", str "status")
    ∷ ("processing_mode", str "etl")
    ∷ ("summary", obj (dict_or_empty (get "summary" r.payload)))
    ∷ [])
