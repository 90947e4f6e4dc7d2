-- ===== src/Derived/Networker.antt =====
-- apps/processors/derived.py: the documents of NetWorker's backups and of its jobs' runs.
use Prim.Native.Char.{Char, code}
use integrated_backup_monito.Prelude.{
  ℕ, ◌-◌, ◌/◌, ◌<>◌, String, Bool, ◌||◌, Option, none, some, List, [], ◌∷◌, ◌==◌, string_eq, leb,
  nat_beq, if◌then◌else◌,
}
use integrated_backup_monito.Prelude.Int.{pos}
use integrated_backup_monito.Prelude.Text.{lower, is_empty, drop_while_end}
use integrated_backup_monito.Value.{
  Value, null, int, str, arr, obj, Items, nil, cons, Fields, Runtime, fields, get, put, merge, show,
}
use integrated_backup_monito.Derived.{string, parse_datetime, isoformat, derived_document}
use integrated_backup_monito.Derived.RunKey.{workflow_run_key}

-- `a or b` of dates and of texts
abbrev pub or_date : Option ℕ → Option ℕ → Option ℕ
or_date none b = b
or_date (some a) b = some a

abbrev pub text_or : String → String → String
text_or a b = if is_empty a then b else a

abbrev is_dot : Char → Bool
is_dot c = nat_beq (code c) b'.'

-- `_networker_backup_identity`; none is the pair of empty texts.
abbrev fallback_identity : Runtime → String → String → Option ℕ → Option (String × String)
fallback_identity rt client_name save_set none = none
fallback_identity rt client_name save_set (some t) =
    if is_empty client_name || is_empty save_set
    then none
    else some (
      "fallback:"
          <> rt.sha256_text
              (client_name <> "\0" <> save_set <> "\0" <> string rt (isoformat rt (some t))),
      "client_save_set_completion_time",
    )

unfoldable pub networker_backup_identity : Runtime → Fields → Option ℕ → Option (String × String)
unfolding string isoformat get lower drop_while_end
networker_backup_identity rt backup completion_time =
    let backup_id = string rt (get "backup_id" backup) in
    if is_empty backup_id
    then fallback_identity rt (drop_while_end is_dot (lower (string rt (get "client_name" backup))))
        (text_or (string rt (get "save_set" backup)) (string rt (get "name" backup)))
        completion_time
    else some (backup_id, "backup_id")

-- What both kinds of document overwrite.
unfoldable pub dated : Fields → Value → Value → String → Fields → Fields
unfolding get put
dated raw event_time index_month derived_id document = put "derived_id" (str derived_id) (
    put "index_month" index_month
      (put "observed_at" (get "@timestamp" raw) (put "@timestamp" event_time document)))

-- `_iter_networker_backup_documents`, one backup
abbrev pub backup_document :
    Runtime → Fields → Fields → Option (String × String) → Option ℕ → Option Fields
backup_document rt raw backup none event_time = none
backup_document rt raw backup (some (backup_id, identity_source)) none = none
backup_document rt raw backup (some (backup_id, identity_source)) (some t) =
    let entry = merge backup (
      fields (
        ("backup_document_id", str backup_id)
        ∷ ("backup_identity_source", str identity_source)
        ∷ ("event_time", isoformat rt (some t))
        ∷ ("backup_month", str (rt.strftime "%Y-%m" t))
        ∷ [])) in
    let document = derived_document rt raw "networker" "backup" entry (str backup_id) in
    some (
      dated raw (get "event_time" entry) (get "backup_month" entry)
        (show rt (get "collector" document) <> ":backup:" <> backup_id) document)

unfoldable pub networker_backup_document : Runtime → Fields → Fields → Option Fields
unfolding networker_backup_identity parse_datetime isoformat derived_document dated fields merge get
    show
networker_backup_document rt raw backup =
    let completion_time = parse_datetime rt (get "completion_time" backup) in
    backup_document rt raw backup (networker_backup_identity rt backup completion_time)
      (or_date completion_time (parse_datetime rt (get "save_time" backup)))

-- `_job_run_record`. The seconds of a duration are exact below 272 years, where the source's floating
-- number does not round a fraction up to the next second.
unfoldable pub outcome : Runtime → Fields → String
unfolding string get lower
outcome rt job =
    text_or (lower (string rt (get "status_normalized" job)))
      (text_or (lower (string rt (get "status" job))) "unknown")

abbrev pub duration_seconds : Option ℕ → Option ℕ → Value
duration_seconds (some start) (some finish) =
    if leb start finish then int (pos ((finish - start) / 1000000)) else null
duration_seconds _ _ = null

abbrev pub run_month : Runtime → Option ℕ → ℕ → String
run_month rt none event_time = rt.strftime "%Y-%m" event_time
run_month rt (some start) event_time = rt.strftime "%Y-%m" start

-- The event of a run: when a running job started, and when another job ended.
abbrev pub event_of : Runtime → Fields → Option ℕ → Option ℕ → Option ℕ
event_of rt job start finish = if outcome rt job == "running" then start else or_date finish start

-- What is known of a run before its record is made.
abbrev pub run_fields : Runtime → Fields → Option ℕ → Option ℕ → ℕ → List (String × Value)
run_fields rt job start finish event_time =
    ("job_id", str (string rt (get "job_id" job)))
    ∷ ("workflow_run_key", str (workflow_run_key rt job))
    ∷ ("start_time", isoformat rt start)
    ∷ ("end_time", isoformat rt finish)
    ∷ ("event_time", isoformat rt (some event_time))
    ∷ ("job_run_month", str (run_month rt start event_time))
    ∷ ("duration_seconds", duration_seconds start finish)
    ∷ ("outcome", str (outcome rt job))
    ∷ []

abbrev pub run_record : Runtime → Fields → Option ℕ → Option ℕ → Option ℕ → Option Fields
run_record rt job start finish none = none
run_record rt job start finish (some t) =
    if is_empty (string rt (get "job_id" job))
    then none
    else some (merge job (fields (run_fields rt job start finish t)))

unfoldable pub job_run_record : Runtime → Fields → Option Fields
unfolding outcome string parse_datetime isoformat workflow_run_key fields merge get
job_run_record rt job =
    let start = parse_datetime rt (get "start_time" job) in
    let finish = parse_datetime rt (get "end_time" job) in
    run_record rt job start finish (event_of rt job start finish)

-- `_iter_networker_job_run_documents`, one job
abbrev pub run_document : Runtime → Fields → Option Fields → Option Fields
run_document rt raw none = none
run_document rt raw (some entry) =
    let job_id = string rt (get "job_id" entry) in
    let document = derived_document rt raw "networker" "job-run" entry (str job_id) in
    some (
      dated raw (get "event_time" entry) (get "job_run_month" entry)
        (show rt (get "collector" document) <> ":job:" <> job_id) document)

unfoldable pub networker_job_run_document : Runtime → Fields → Fields → Option Fields
unfolding job_run_record string derived_document dated get show
networker_job_run_document rt raw job = run_document rt raw (job_run_record rt job)

-- The dicts of a list, and what is made of them.
abbrev pub each_dict : (Fields → Option Fields) → Items → List Fields
each_dict make nil = []
each_dict make (cons (obj fs) rest) = elim (make fs) [
  | some made ↦ made ∷ each_dict make rest
  | none ↦ each_dict make rest
]
each_dict make (cons _ rest) = each_dict make rest

abbrev pub each_dict_of : (Fields → Option Fields) → Value → List Fields
each_dict_of make (arr items) = each_dict make items
each_dict_of make _ = []

unfoldable pub networker_backup_documents : Runtime → Fields → Fields → List Fields
unfolding networker_backup_document get
networker_backup_documents rt raw payload =
    each_dict_of (networker_backup_document rt raw) (get "backups" payload)

unfoldable pub networker_job_run_documents : Runtime → Fields → Fields → List Fields
unfolding networker_job_run_document get
networker_job_run_documents rt raw payload =
    each_dict_of (networker_job_run_document rt raw) (get "jobs" payload)
