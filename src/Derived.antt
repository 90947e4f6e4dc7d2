-- ===== src/Derived.antt =====
-- apps/processors/derived.py: the documents that are derived from a raw document.
--
-- An overflow at the ends of the calendar, which the source lets pass from `astimezone`, counts as no
-- date here. A generator is the list of what it yields. The fields `target_type` and `solution` of a
-- raw document are texts, as the writer makes them.
mod RunKey
pub mod Records
pub mod Networker
pub mod Documents
pub mod Laws
mod Tests
use integrated_backup_monito.Prelude.{
  ℕ, ◌<>◌, String, Bool, true, false, ◌&&◌, ◌||◌, not, Option, none, some, List, [], ◌∷◌, ◌++◌,
  ◌==◌, string_eq, contains, leb, ltb, nat_beq, if◌then◌else◌,
}
use integrated_backup_monito.Prelude.Int.{ℤ, pos}
use integrated_backup_monito.Prelude.Text.{
  strip, lower, is_empty, join, show_ℕ, take_text, has_length, without_z,
}
use integrated_backup_monito.Value.{
  Float, Datetime, naive, aware, Value, null, bool, int, real, str, datetime, arr, obj, Fields,
  Runtime, find, get, put, merge, fields, or_else, truthy, dict_or_empty, utc_instant, show,
}

-- `_string`
unfoldable pub string : Runtime → Value → String
string rt null = ""
string rt v = strip (show rt v)

-- `_datetime_from_epoch`
unfoldable pub datetime_from_epoch : Runtime → Float → Option ℕ
datetime_from_epoch rt value =
    rt.from_timestamp (if rt.abs_ge value 100000000000 then rt.thousandth value else value)

-- `_parse_datetime`: a naive time is one of UTC.
unfoldable pub as_utc : Datetime → Option ℕ
as_utc (naive t) = utc_instant (aware t (pos 0))
as_utc (aware t z) = utc_instant (aware t z)

abbrev then_epoch : Runtime → Option Float → Option ℕ
then_epoch rt none = none
then_epoch rt (some x) = datetime_from_epoch rt x

abbrev then_utc : Option Datetime → Option ℕ
then_utc none = none
then_utc (some d) = as_utc d

abbrev normalized : String → Option String → String
normalized text none = text
normalized text (some kept) = kept <> "+00:00"

abbrev or_iso : Runtime → String → Option ℕ → Option ℕ
or_iso rt text none = then_utc (rt.from_isoformat (normalized text (without_z text)))
or_iso rt text (some t) = some t

unfoldable pub parse_text : Runtime → String → Option ℕ
parse_text rt text =
    if is_empty text then none else or_iso rt text (then_epoch rt (rt.parse_float text))

unfoldable pub parse_datetime : Runtime → Value → Option ℕ
unfolding as_utc datetime_from_epoch parse_text
parse_datetime rt (datetime d) = as_utc d
parse_datetime rt (bool b) = then_epoch rt (rt.float_of_int (if b then pos 1 else pos 0))
parse_datetime rt (int n) = then_epoch rt (rt.float_of_int n)
parse_datetime rt (real x) = datetime_from_epoch rt x
parse_datetime rt v = parse_text rt (string rt v)

-- `_isoformat`, as a value of a document.
unfoldable pub isoformat : Runtime → Option ℕ → Value
isoformat rt none = null
isoformat rt (some t) = str (rt.isoformat (aware t (pos 0)))

-- `_month`
unfoldable pub month : Runtime → Value → String
unfolding string take_text
month rt timestamp =
    let text = string rt timestamp in if has_length 7 text then take_text 7 text else "unknown"

-- `_solution`
solution_alias : String → String → String
solution_alias target otherwise =
    if target == "DD" || target == "DXi"
    then "vtl"
    else if target == "Networker"
    then "networker"
    else if target == "ZFS"
    then "zfs"
    else if target == "i6000"
    then "ptl"
    else otherwise

abbrev or_text : Option Value → Value
or_text none = str ""
or_text (some v) = v

unfoldable pub solution : Runtime → Fields → String
unfolding solution_alias find get truthy show lower
solution rt raw =
    let value = get "solution" raw in
    if truthy value
    then show rt value
    else solution_alias (show rt (get "target_type" raw))
        (lower (show rt (or_text (find "target_type" raw))))

-- `_first_non_empty`
unfoldable pub first_non_empty : Runtime → Fields → List String → String
unfolding string get
first_non_empty rt entry [] = ""
first_non_empty rt entry (key ∷ keys) =
    let value = string rt (get key entry) in
    if is_empty value then first_non_empty rt entry keys else value

-- `_record_id`
abbrev present_texts : Runtime → Fields → List String → List String
present_texts rt entry [] = []
present_texts rt entry (key ∷ keys) =
    let value = string rt (get key entry) in
    let rest = present_texts rt entry keys in if is_empty value then rest else value ∷ rest

abbrev or_index : List String → ℕ → String
or_index [] index = show_ℕ index
or_index (value ∷ values) index = join ":" (value ∷ values)

unfoldable pub record_id : Runtime → Fields → List String → ℕ → String
unfolding string get join show_ℕ
record_id rt entry keys index = or_index (present_texts rt entry keys) index

-- `_networker_document_fields`
abbrev client_hostname : Fields → Value
client_hostname entry = or_else (get "client_hostname" entry) (get "client_name" entry)

copied : List (String × String) → Fields → List (String × Value)
unfolding get
copied [] entry = []
copied ((to, from) ∷ names) entry = (to, get from entry) ∷ copied names entry

same : List String → List (String × String)
same [] = []
same (name ∷ names) = (name, name) ∷ same names

abbrev pub job_names : List (String × String)
unfolding same
job_names =
    ("id", "job_id")
    ∷ same (
        "name" ∷ "type" ∷ "state" ∷ "completion_status" ∷ "status_normalized" ∷ "exit_code"
        ∷ "start_time" ∷ "end_time" ∷ "duration_seconds" ∷ "level" ∷ "data_size_bytes"
        ∷ "parent_job_id" ∷ "root_parent_job_id" ∷ "previous_job_id" ∷ [])

abbrev pub backup_names : List (String × String)
unfolding same
backup_names =
    ("id", "backup_id")
    ∷ same ("save_set" ∷ "level" ∷ "save_time" ∷ "completion_time" ∷ "size_bytes" ∷ [])

job_fields : Fields → Fields
unfolding fields or_else get copied
job_fields entry = fields (
    ("job", obj (fields (copied job_names entry)))
    ∷ ("client", obj (fields (("hostname", client_hostname entry) ∷ [])))
    ∷ ("run_on_host", get "run_on_host" entry)
    ∷ [])

backup_fields : Fields → Fields
unfolding fields or_else get copied
backup_fields entry = fields (
    ("backup", obj (fields (copied backup_names entry)))
    ∷ ("client", obj (fields (("hostname", client_hostname entry) ∷ [])))
    ∷ ("policy", obj (fields (("name", get "policy_name" entry) ∷ [])))
    ∷ ("workflow", obj (fields (("name", get "workflow_name" entry) ∷ [])))
    ∷ ("action", obj (fields (("name", get "action_name" entry) ∷ [])))
    ∷ [])

client_fields : Fields → Fields
unfolding fields or_else get copied
client_fields entry = fields (
    (
      "client",
      obj (
          fields (
            ("resource_id", or_else (get "resource_id" entry) (get "client_id" entry))
            ∷ ("hostname", client_hostname entry)
            ∷ ("state", get "client_state" entry)
            ∷ ("backup_type", get "backup_type" entry)
            ∷ ("os", get "client_os" entry)
            ∷ [])),
    )
    ∷ [])

unfoldable pub networker_document_fields : String → Fields → Fields
unfolding fields job_fields backup_fields client_fields
networker_document_fields document_type entry =
    if document_type == "job" || document_type == "job-run"
    then job_fields entry
    else if document_type == "backup"
    then backup_fields entry
    else if document_type == "client"
    then client_fields entry
    else fields []

-- `_derived_document`
unfoldable pub common_fields : Runtime → Fields → String → String → Fields → Value → Fields
unfolding fields get or_else show month
common_fields rt raw solution document_type entry id =
    let collector = get "collector" raw in
    let name = show rt (or_else id (str "unknown")) in
    fields (
      ("@timestamp", get "@timestamp" raw)
      ∷ ("collector", collector)
      ∷ ("device_name", or_else (get "device_name" raw) collector)
      ∷ ("target_type", get "target_type" raw)
      ∷ ("solution", str solution)
      ∷ ("document_family", str "derived")
      ∷ ("document_type", str document_type)
      ∷ ("processing_mode", str "elt")
      ∷ ("source_raw_id", or_else (get "_id" raw) (get "raw_document_id" raw))
      ∷ ("record_id", str name)
      ∷ (
        "derived_id",
        str (
            show rt collector
            <> ":"
            <> document_type
            <> ":"
            <> name
            <> ":"
            <> month rt (get "@timestamp" raw)),
      )
      ∷ ("source_networker", get "source_networker" entry)
      ∷ ("security_domain", get "security_domain" entry)
      ∷ ("payload", obj entry)
      ∷ [])

unfoldable pub derived_document : Runtime → Fields → String → String → Fields → Value → Fields
unfolding common_fields networker_document_fields put merge
derived_document rt raw solution document_type entry id =
    let document = common_fields rt raw solution document_type entry id in
    let family = str (if document_type == "job-run" then "job" else document_type) in
    if solution == "networker"
    then merge (put "document_family" family document)
        (networker_document_fields document_type entry)
    else document
