-- ===== src/Lookup/Extract.antt =====
-- apps/lookups/networker_action/extract.py
use integrated_backup_monito.Prelude.{
  ℕ, suc, String, ◌<>◌, Bool, true, false, ◌||◌, Option, none, some, List, [], ◌∷◌, ◌++◌, ◌==◌,
  string_eq, if◌then◌else◌,
}
use integrated_backup_monito.Prelude.Int.{pos}
use integrated_backup_monito.Prelude.Text.{strip, is_empty, join}
use integrated_backup_monito.Prelude.Dict.{
  Dict, lookup, insert, or_default, add, several, sorted_set,
}
use integrated_backup_monito.Value.{
  Value, null, bool, int, str, arr, obj, Fields, Runtime, end, elements, get, put, truthy,
}
use integrated_backup_monito.Lookup.Result.{Result, ok, value_error, ◌>>=◌}
use integrated_backup_monito.Lookup.Models.{
  Name, Issue, Evidence, positive_id, timestamp, source_of, unwrap,
}
use integrated_backup_monito.Lookup.Normalize.{normalize_text}

abbrev pub action_id_key : String
action_id_key = "*policy action jobid"

abbrev pub policy_key : String
policy_key = "*policy name"

abbrev pub workflow_key : String
workflow_key = "*policy workflow name"

abbrev pub group_key : String
group_key = "group"

pub record Extraction : Type 0 where
  pub evidence : List Evidence
  pub issues : List Issue
  pub incomplete_sources : List String

abbrev pub empty_extraction : Extraction
empty_extraction = record { evidence = []; issues = []; incomplete_sources = [] }

unfoldable pub add_issue : Issue → Extraction → Extraction
add_issue issue r = record r { issues = r.issues ++ issue ∷ [] }

unfoldable pub mark_incomplete : String → Extraction → Extraction
mark_incomplete source r = record r { incomplete_sources = add source r.incomplete_sources }

-- The texts of a list in which each value is a text that is not blank.
unfoldable pub texts : List Value → Option (List String)
texts [] = some []
texts (str s ∷ vs) = elim (texts vs) [
  | some rest ↦ if is_empty (strip s) then none else some (s ∷ rest)
  | none ↦ none
]
texts (_ ∷ vs) = none

-- An attribute: an error, or its key and its values.
pub data Attribute : Type 0 where
  invalid : String → Attribute
  named : String → List String → Attribute

abbrev attribute_values : String → Option (List String) → Attribute
attribute_values key none = invalid "invalid_attribute_values"
attribute_values key (some []) = invalid "invalid_attribute_values"
attribute_values key (some (v ∷ vs)) = named key (v ∷ vs)

abbrev list_texts : Value → Option (List String)
list_texts (arr items) = texts (elements items)
list_texts _ = none

abbrev keyed_attribute : Fields → Value → Attribute
keyed_attribute attribute (str key) =
    if is_empty (strip key)
    then invalid "invalid_attribute_key"
    else attribute_values key (list_texts (get "values" attribute))
keyed_attribute attribute _ = invalid "invalid_attribute_key"

unfoldable pub read_attribute : Value → Attribute
unfolding texts
read_attribute (obj attribute) = keyed_attribute attribute (get "key" attribute)
read_attribute _ = invalid "invalid_attribute_key"

-- The loop over the attributes: the errors, and the values of each key.
abbrev pub Collected : Type 0
Collected = List String × Dict String (List String)

abbrev collect : Attribute → Collected → Collected
collect (invalid error) (errors, values) = (errors ++ error ∷ [], values)
collect (named key items) (errors, values) =
    (errors, insert key (or_default [] (lookup key values) ++ items) values)

unfoldable pub collect_attributes : List Value → Collected → Collected
unfolding read_attribute
collect_attributes [] collected = collected
collect_attributes (v ∷ vs) collected = collect_attributes vs (collect (read_attribute v) collected)

unfoldable pub attribute_list : Value → List Value
attribute_list (arr items) = elements items
attribute_list _ = []

unfoldable pub read_attributes : Value → Collected
unfolding collect_attributes attribute_list
read_attributes attributes = elim (attribute_list attributes) [
  | [] ↦ ("missing_or_invalid_attributes" ∷ [], [])
  | v ∷ vs ↦ collect_attributes (v ∷ vs) ([], [])
]

-- `positive_id(next(iter(ids))) if len(ids) == 1 else None`
unfoldable pub single_id : List String → Option String
single_id [] = none
single_id (v ∷ vs) = if several (v ∷ vs) then none else positive_id (str v)

-- The checks on one of the required names.
abbrev name_errors : String → Option (List String) → List String
name_errors key none = ("missing_attribute:" <> key) ∷ []
name_errors key (some vs) = if several vs then ("multiple_attribute_values:" <> key) ∷ [] else []

abbrev id_errors : Option String → List String
id_errors none = "missing_multiple_or_invalid_action_id" ∷ []
id_errors (some action_id) = []

unfoldable pub attribute_errors : Collected → List String
attribute_errors (errors, values) =
    errors
    ++ (id_errors (single_id (or_default [] (lookup action_id_key values)))
        ++ (name_errors policy_key (lookup policy_key values)
            ++ (name_errors workflow_key (lookup workflow_key values)
                ++ name_errors group_key (lookup group_key values))))

-- `values[key][0]`. The key is there with a value where there was no error.
unfoldable pub first_value : String → Dict String (List String) → String
first_value key values = elim (or_default [] (lookup key values)) [ [] ↦ "" | v ∷ vs ↦ v ]

unfoldable pub read_names : Dict String (List String) → Result (Name × Name × Name)
read_names values = do
  policy ← normalize_text (first_value policy_key values) true
  workflow ← normalize_text (first_value workflow_key values) true
  group ← normalize_text (first_value group_key values) false
  ok (policy, workflow, group)

-- `identity.strip() if isinstance(identity, str) and identity.strip() else None`
unfoldable pub backup_identity : Value → Option String
backup_identity (str s) = if is_empty (strip s) then none else some (strip s)
backup_identity _ = none

abbrev or_none : Option String → Value
or_none none = null
or_none (some s) = str s

abbrev issue_of : String → String → Option String → Fields → Value → Issue
issue_of reason source action_id reference details = record {
  reason = reason;
  source = some source;
  action_id = action_id;
  reference = reference;
  details = details;
}

abbrev incomplete_unless : Option String → String → Extraction → Extraction
incomplete_unless none source r = mark_incomplete source r
incomplete_unless (some action_id) source r = r

abbrev add_names :
    Fields
    → String
    → Fields
    → Option ℕ
    → String
    → Result (Name × Name × Name)
    → Extraction
    → Extraction
add_names backup source reference observed_at action_id (value_error reason) r =
    add_issue (issue_of reason source (some action_id) reference (obj backup)) r
add_names backup source reference observed_at action_id (ok (policy, workflow, group)) r =
    let backup_id = backup_identity (get "id" backup) in
    record r {
      evidence =
          r.evidence
          ++ record {
            source = source;
            action_id = action_id;
            backup_id = backup_id;
            policy = policy;
            workflow = workflow;
            group = group;
            attributes = attribute_list (get "attributes" backup);
            reference = put "backup_id" (or_none backup_id) reference;
            observed_at = observed_at;
            save_time = get "saveTime" backup;
            completion_time = get "completionTime" backup;
          }
            ∷ [];
    }

abbrev add_checked :
    Fields
    → String
    → Fields
    → Option ℕ
    → Collected
    → Option String
    → List String
    → Extraction
    → Extraction
add_checked backup source reference observed_at collected (some action_id) [] r =
    add_names backup source reference observed_at action_id (read_names collected.1) r
add_checked backup source reference observed_at collected action_id errors r =
    incomplete_unless action_id source (
      add_issue (issue_of (join ";" (sorted_set errors)) source action_id reference (obj backup)) r)

-- `_extract_backup`
unfoldable pub extract_backup : Value → String → Fields → Option ℕ → Extraction → Extraction
unfolding add_issue mark_incomplete
extract_backup (obj backup) source reference observed_at r =
    let collected = read_attributes (get "attributes" backup) in
    let action_id = single_id (or_default [] (lookup action_id_key collected.1)) in
    add_checked backup source reference observed_at collected action_id (attribute_errors collected)
      r
extract_backup other source reference observed_at r =
    mark_incomplete source (add_issue (issue_of "invalid_backup" source none reference other) r)

-- The loop over the backups of a response.
unfoldable pub extract_backups :
    List Value → ℕ → Fields → Fields → String → Option ℕ → Extraction → Extraction
extract_backups [] position document reference source observed_at r = r
extract_backups (backup ∷ rest) position document reference source observed_at r =
    let ref =
      put "position" (int (pos position))
        (put "raw_document_id" (get "raw_document_id" document) reference) in
    extract_backups rest (suc position) document reference source observed_at
      (extract_backup backup source ref observed_at r)

-- The signs that a collection was partial.
abbrev is_false : Value → Bool
is_false (bool false) = true
is_false _ = false

-- A status that is a list or a dict, for which the source's test raises `TypeError`, is not partial here.
abbrev is_partial_status : Value → Bool
is_partial_status (str s) = s == "partial" || s == "error"
is_partial_status _ = false

unfoldable pub is_partial : Fields → Fields → Bool
is_partial document payload =
    is_false (get "ok" document)
    || is_partial_status (get "collection_status" payload)
    || truthy (get "endpoint_errors" payload)

-- `raw["backups"]`, or the list under the same key in it.
abbrev inner_backups : Value → Value
inner_backups (obj response) = get "backups" response
inner_backups other = other

abbrev raw_backups : Value → Value
raw_backups (obj raw) = inner_backups (get "backups" raw)
raw_backups _ = null

abbrev extract_response : Runtime → Fields → Fields → String → Value → Extraction → Extraction
extract_response rt document reference source (arr items) r =
    extract_backups (elements items) 0 document reference source
      (timestamp rt (get "@timestamp" document)) r
extract_response rt document reference source _ r =
    mark_incomplete source
      (add_issue (issue_of "invalid_backup_response" source none reference null) r)

abbrev mark_partial : Bool → Fields → String → Extraction → Extraction
mark_partial true reference source r =
    add_issue (issue_of "partial_collection" source none reference null) (mark_incomplete source r)
mark_partial false reference source r = r

abbrev extract_payload : Runtime → Fields → Fields → String → Value → Extraction
extract_payload rt document reference source (obj payload) =
    extract_response rt document reference source (raw_backups (get "raw" payload))
      (mark_partial (is_partial document payload) reference source empty_extraction)
extract_payload rt document reference source _ =
    mark_incomplete source
      (add_issue (issue_of "invalid_payload" source none reference null) empty_extraction)

abbrev extract_document : Runtime → Value → Result (Fields × Fields × String) → Extraction
extract_document rt hit (ok (document, reference, source)) =
    extract_payload rt document reference source (get "payload" document)
extract_document rt hit (value_error reason) =
    add_issue
      (record { reason = reason; source = none; action_id = none; reference = end; details = hit })
      empty_extraction

unfoldable pub read_source : Runtime → Value → Result (Fields × Fields × String)
read_source rt hit = do
  (document, reference) ← unwrap hit
  source ← source_of rt true document
  ok (document, reference, source)

-- `extract_raw`
unfoldable pub extract_raw : Runtime → Value → Extraction
unfolding add_issue mark_incomplete read_source is_partial
extract_raw rt hit = extract_document rt hit (read_source rt hit)
