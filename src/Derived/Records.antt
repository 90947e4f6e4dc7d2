-- ===== src/Derived/Records.antt =====
-- apps/processors/derived.py: one document for every record of a list of the payload, and the
-- summaries.
use integrated_backup_monito.Prelude.{
  ℕ, suc, ◌<>◌, String, ◌&&◌, List, [], ◌∷◌, ◌++◌, ◌==◌, string_eq, if◌then◌else◌,
}
use integrated_backup_monito.Value.{
  Value, str, arr, obj, Items, nil, cons, Fields, end, field, Runtime, get, put, or_else, truthy,
  dict_or_empty, show,
}
use integrated_backup_monito.Derived.{derived_document, record_id, first_non_empty, solution}

-- The document type, the payload's key and the fields of the id.
abbrev pub Spec : Type 0
Spec = String × String × List String

-- `_iter_record_documents`, one record
unfoldable pub record_document :
    Runtime → Fields → String → String → List String → ℕ → Fields → Fields
unfolding derived_document record_id get put truthy show
record_document rt raw solution document_type id_fields index entry =
    let document =
      derived_document rt raw solution document_type entry
        (str (record_id rt entry id_fields index)) in
    let id = get "job_id" entry in
    if solution == "networker" && document_type == "job" && truthy id
    then put "derived_id" (str (show rt (get "collector" document) <> ":job:" <> show rt id))
        document
    else document

-- The numbers count the records that are no dicts too.
unfoldable pub each_record :
    Runtime → Fields → String → String → List String → ℕ → Items → List Fields
unfolding record_document
each_record rt raw solution document_type id_fields index nil = []
each_record rt raw solution document_type id_fields index (cons (obj entry) records) =
    record_document rt raw solution document_type id_fields index entry
    ∷ each_record rt raw solution document_type id_fields (suc index) records
each_record rt raw solution document_type id_fields index (cons _ records) =
    each_record rt raw solution document_type id_fields (suc index) records

abbrev spec_records : Runtime → Fields → String → Spec → Value → List Fields
spec_records rt raw solution (document_type, payload_key, id_fields) (arr records) =
    each_record rt raw solution document_type id_fields 0 records
spec_records rt raw solution spec _ = []

unfoldable pub record_documents : Runtime → Fields → Fields → String → List Spec → List Fields
unfolding each_record get
record_documents rt raw payload solution [] = []
record_documents rt raw payload solution ((document_type, payload_key, id_fields) ∷ specs) =
    spec_records rt raw solution (document_type, payload_key, id_fields) (get payload_key payload)
    ++ record_documents rt raw payload solution specs

-- `_summary_document`
unfoldable pub summary_document : Runtime → Fields → String → Fields → List Fields
unfolding derived_document first_non_empty or_else get
summary_document rt raw solution end = []
summary_document rt raw solution (field k v fs) =
    derived_document rt raw solution "summary" (field k v fs) (
      or_else (str (first_non_empty rt (field k v fs) ("device_name" ∷ "server" ∷ "name" ∷ [])))
        (get "collector" raw))
    ∷ []

-- `_i6000_documents`
i6000_specs : List Spec
i6000_specs =
    ("drive", "drives", "serial_number" ∷ "name" ∷ [])
    ∷ ("media", "media", "barcode" ∷ "name" ∷ [])
    ∷ ("partition", "partitions", "name" ∷ [])
    ∷ ("robot", "robots", "name" ∷ [])
    ∷ []

unfoldable pub i6000_documents : Runtime → Fields → Fields → List Fields
unfolding i6000_specs summary_document record_documents dict_or_empty get
i6000_documents rt raw payload =
    let summary = dict_or_empty (get "summary" payload) in
    summary_document rt raw "i6000" summary ++ record_documents rt raw summary "i6000" i6000_specs

-- `_zfs_documents`
zfs_specs : List Spec
zfs_specs =
    ("pool", "pools", "name" ∷ [])
    ∷ ("project", "projects", "pool" ∷ "name" ∷ [])
    ∷ ("filesystem", "filesystems", "pool" ∷ "project" ∷ "name" ∷ [])
    ∷ ("lun", "luns", "pool" ∷ "project" ∷ "name" ∷ "id" ∷ [])
    ∷ ("event", "alerts", "timestamp" ∷ "summary" ∷ [])
    ∷ []

unfoldable pub zfs_documents : Runtime → Fields → Fields → List Fields
unfolding zfs_specs summary_document record_documents dict_or_empty get
zfs_documents rt raw payload =
    let summary = dict_or_empty (get "summary" payload) in
    summary_document rt raw "zfs" summary ++ record_documents rt raw payload "zfs" zfs_specs

-- `_device_documents`
unfoldable pub device_documents : Runtime → Fields → Fields → List Fields
unfolding summary_document solution dict_or_empty get
device_documents rt raw payload =
    summary_document rt raw (solution rt raw) (dict_or_empty (get "summary" payload))
