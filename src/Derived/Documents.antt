-- ===== src/Derived/Documents.antt =====
-- apps/processors/derived.py, `iter_derived_documents`: all documents of a raw document.
use integrated_backup_monito.Prelude.{
  String, ◌||◌, List, [], ◌∷◌, ◌++◌, ◌==◌, string_eq, if◌then◌else◌,
}
use integrated_backup_monito.Value.{Value, str, obj, Fields, Runtime, get}
use integrated_backup_monito.Derived.Records.{
  Spec, record_documents, i6000_documents, zfs_documents, device_documents,
}
use integrated_backup_monito.Derived.Networker.{
  networker_backup_documents, networker_job_run_documents,
}

-- `_iter_networker_documents`
networker_specs : List Spec
networker_specs =
    ("job", "jobs", "job_id" ∷ "name" ∷ [])
    ∷ ("client", "clients", "client_name" ∷ "client_id" ∷ [])
    ∷ ("policy", "policies", "policy_name" ∷ [])
    ∷ ("workflow", "workflows", "policy_name" ∷ "workflow_name" ∷ [])
    ∷ []

unfoldable pub networker_documents : Runtime → Fields → Fields → List Fields
unfolding networker_specs record_documents networker_backup_documents networker_job_run_documents
networker_documents rt raw payload =
    record_documents rt raw payload "networker" networker_specs
    ++ (networker_backup_documents rt raw payload ++ networker_job_run_documents rt raw payload)

documents_of : Runtime → Fields → Fields → String → List Fields
unfolding networker_documents i6000_documents zfs_documents device_documents
documents_of rt raw payload target =
    if target == "Networker"
    then networker_documents rt raw payload
    else if target == "i6000"
    then i6000_documents rt raw payload
    else if target == "ZFS"
    then zfs_documents rt raw payload
    else if target == "DD" || target == "DXi"
    then device_documents rt raw payload
    else []

abbrev of_target : Runtime → Fields → Value → Value → List Fields
of_target rt raw (obj payload) (str target) = documents_of rt raw payload target
of_target rt raw _ _ = []

-- `iter_derived_documents`
unfoldable pub iter_derived_documents : Runtime → Fields → List Fields
unfolding get documents_of
iter_derived_documents rt raw = of_target rt raw (get "payload" raw) (get "target_type" raw)
