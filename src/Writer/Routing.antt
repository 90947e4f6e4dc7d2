-- ===== src/Writer/Routing.antt =====
-- apps/writers/elasticsearch.py: `_iter_actions_for_result` and what it calls to name indices.
use integrated_backup_monito.Prelude.{
  ◌<>◌, String, Bool, ◌||◌, List, [], ◌∷◌, ◌++◌, ◌==◌, string_eq, contains, if◌then◌else◌,
}
use integrated_backup_monito.Prelude.Text.{strip, lower, upper, replace_char, split}
use integrated_backup_monito.Value.{Value, str, obj, Fields, Runtime, get, or_else, truthy, show}
use integrated_backup_monito.Derived.Documents.{iter_derived_documents}
use integrated_backup_monito.Writer.Month.{is_month}
use integrated_backup_monito.Writer.{
  CollectionResult, index_family, raw_document, current_document, raw_document_id,
  current_document_id,
}

-- A bulk action; its `_op_type` is always "index".
pub record Action : Type 0 where
  pub index : String
  pub id : Value
  pub source : Fields

-- `_index_name`
unfoldable pub raw_index : Runtime → CollectionResult → String
unfolding lower index_family
raw_index rt r = lower (index_family r <> "-RAW-" <> rt.strftime "%Y-%m" r.collected_at)

unfoldable pub current_index : CollectionResult → String
unfolding lower index_family
current_index r = lower (index_family r <> "-CURRENT")

-- `_site_segment`
unfoldable pub site_segment : String → String
unfolding lower upper split replace_char
site_segment collector =
    let tokens = split b'_' (replace_char b'-' "_" (lower collector)) in
    if contains "core" tokens
    then "CORE"
    else if contains "chnl" tokens
    then "CHNL"
    else if contains "info" tokens
    then "INFO"
    else upper collector

abbrev pub known_or : String → String → String
known_or otherwise s = if s == "core" || s == "chnl" || s == "info" then s else otherwise

-- `_networker_source`
abbrev stated_source : Runtime → String → Value → String
stated_source rt collector (obj summary) =
    let source = get "source_networker" summary in
    if truthy source then lower (strip (show rt source)) else lower (site_segment collector)
stated_source rt collector _ = lower (site_segment collector)

unfoldable pub networker_source : Runtime → CollectionResult → String
unfolding get truthy lower strip show site_segment
networker_source rt r = known_or "unknown" (stated_source rt r.collector (get "summary" r.payload))

-- `_security_domain`
abbrev pub domain_of : Value → Value
domain_of (obj payload) = or_else (get "security_domain" payload) (str "unmapped")
domain_of _ = str "unmapped"

unfoldable pub security_domain : Runtime → Fields → String
unfolding get or_else lower strip show
security_domain rt document =
    known_or "unmapped" (lower (strip (show rt (domain_of (get "payload" document)))))

-- `_networker_entity_segment`
unfoldable pub networker_entity_segment : Runtime → Fields → String
unfolding get or_else lower upper strip show
networker_entity_segment rt document =
    let document_type =
      lower (strip (show rt (or_else (get "document_type" document) (str "unknown")))) in
    if document_type == "monthly-report" then "MONTHLY" else upper document_type

-- `_networker_document_month`
unfoldable pub networker_document_month : Runtime → Fields → String → String
unfolding get or_else show is_month
networker_document_month rt document fallback =
    let value = show rt (or_else (get "index_month" document) (str "")) in
    if is_month value then value else fallback

-- `_iter_networker_actions`
unfoldable pub networker_raw_index : Runtime → CollectionResult → String
unfolding lower upper networker_source
networker_raw_index rt r = lower (
    "NW-OPS-RAW-" <> (upper (networker_source rt r) <> ("-" <> rt.strftime "%Y-%m" r.collected_at)))

unfoldable pub networker_current_index : Runtime → CollectionResult → String
unfolding lower upper networker_source
networker_current_index rt r = lower ("NW-OPS-CURRENT-" <> upper (networker_source rt r))

unfoldable pub derived_index : Runtime → String → Fields → String
unfolding lower upper security_domain networker_entity_segment networker_document_month
derived_index rt month document = lower (
    "NW-"
    <> (upper (security_domain rt document)
        <> ("-"
            <> (networker_entity_segment rt document
                <> ("-" <> networker_document_month rt document month)))))

unfoldable pub derived_action : Runtime → String → Fields → Action
derived_action rt month document = record {
  index = derived_index rt month document;
  id = get "derived_id" document;
  source = document;
}

unfoldable pub derived_actions : Runtime → String → List Fields → List Action
derived_actions rt month [] = []
derived_actions rt month (document ∷ documents) =
    derived_action rt month document ∷ derived_actions rt month documents

abbrev pub has_current : CollectionResult → Bool
has_current r = r.collection_class == "fast" || r.collection_class == "jobs"

abbrev pub raw_action : Runtime → CollectionResult → String → Action
raw_action rt r index = record {
  index = index;
  id = str (raw_document_id rt r);
  source = raw_document rt r;
}

abbrev pub current_actions : Runtime → CollectionResult → String → List Action
current_actions rt r index =
    if has_current r
    then record { index = index; id = str (current_document_id r); source = current_document rt r }
      ∷ []
    else []

unfoldable pub iter_networker_actions : Runtime → CollectionResult → List Action
iter_networker_actions rt r =
    raw_action rt r (networker_raw_index rt r)
    ∷ (current_actions rt r (networker_current_index rt r)
        ++ derived_actions rt (rt.strftime "%Y-%m" r.collected_at)
            (iter_derived_documents rt (raw_document rt r)))

-- `_iter_actions_for_result`
unfoldable pub iter_actions_for_result : Runtime → CollectionResult → List Action
iter_actions_for_result rt r =
    if r.target_type == "Networker"
    then iter_networker_actions rt r
    else raw_action rt r (raw_index rt r) ∷ current_actions rt r (current_index r)
