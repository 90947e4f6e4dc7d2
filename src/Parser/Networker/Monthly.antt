-- ===== src/Parser/Networker/Monthly.antt =====
-- apps/parsers/networker_rest_parser.py, `_build_monthly_report`: a row for each domain, policy and
-- workflow, in the order of first appearance.
pub mod Rows
pub mod Counted
use integrated_backup_monito.Prelude.{
  ℕ, suc, String, Bool, not, Option, none, some, List, [], ◌∷◌, Eq, ◌==◌, string_eq, triple_eq,
  length, if◌then◌else◌,
}
use integrated_backup_monito.Prelude.Int.{ℤ, pos, ◌+ℤ◌}
use integrated_backup_monito.Prelude.Text.{is_empty}
use integrated_backup_monito.Prelude.Dict.{Dict, lookup, insert, or_default, add}
use integrated_backup_monito.Value.{Value, int, real, str, Fields, Runtime, get, fields}
use integrated_backup_monito.Parser.Common.{Platform}
use integrated_backup_monito.Parser.Networker.Summary.{text_at, policy_of, has_status, bytes_of}

-- What is counted of a row.
pub record Row : Type 0 where
  pub source_networker : String
  pub security_domain : String
  pub policy_name : String
  pub workflow_name : String
  pub total_backup_bytes : ℤ
  pub job_success_count : ℕ
  pub job_failed_count : ℕ
  pub job_running_count : ℕ
  pub workflow_count : ℕ

abbrev pub Key : Type 0
Key = String × String × String

abbrev pub Rows : Type 0
Rows = Dict Key Row

-- The default of `rows`
abbrev pub new_row : Row
new_row = record {
  source_networker = "";
  security_domain = "unmapped";
  policy_name = "unknown";
  workflow_name = "";
  total_backup_bytes = pos 0;
  job_success_count = 0;
  job_failed_count = 0;
  job_running_count = 0;
  workflow_count = 0;
}

abbrev pub key_of : Fields → Key
key_of entry = (text_at "security_domain" entry, policy_of entry, text_at "workflow_name" entry)

-- `rows[key]` changed
unfoldable pub change : Key → (Row → Row) → Rows → Rows
change key f [] = (key, f new_row) ∷ []
change key f ((k, r) ∷ rows) = if key == k then (k, f r) ∷ rows else (k, r) ∷ change key f rows

abbrev pub named : Fields → Row → Row
named entry r = record r {
  source_networker = text_at "source_networker" entry;
  security_domain = text_at "security_domain" entry;
  policy_name = policy_of entry;
  workflow_name = text_at "workflow_name" entry;
}

abbrev pub with_workflow : Fields → Row → Row
with_workflow w r = let n = named w r in record n { workflow_count = suc n.workflow_count }

abbrev pub with_backup : Fields → Row → Row
with_backup b r =
    let n = named b r in record n { total_backup_bytes = n.total_backup_bytes +ℤ bytes_of b }

abbrev pub with_job : Fields → Row → Row
with_job j r =
    let n = named j r in
    if has_status "success" j
    then record n { job_success_count = suc n.job_success_count }
    else if has_status "failed" j
    then record n { job_failed_count = suc n.job_failed_count }
    else if has_status "running" j
    then record n { job_running_count = suc n.job_running_count }
    else n

-- One loop over records
unfoldable pub change_all : (Fields → Row → Row) → List Fields → Rows → Rows
unfolding change
change_all f [] rows = rows
change_all f (r ∷ rs) rows = change_all f rs (change (key_of r) (f r) rows)

unfoldable pub monthly_rows : List Fields → List Fields → List Fields → Rows
unfolding change_all get
monthly_rows jobs workflows backups =
    change_all with_job jobs
      (change_all with_backup backups (change_all with_workflow workflows []))

-- `clients_by_domain`
abbrev add_client : Fields → Dict String (List String) → Dict String (List String)
unfolding insert lookup add get
add_client client by_domain =
    let domain = text_at "security_domain" client in
    let name = text_at "client_name" client in
    if is_empty name
    then by_domain
    else insert domain (add name (or_default [] (lookup domain by_domain))) by_domain

unfoldable pub clients_by_domain :
    List Fields → Dict String (List String) → Dict String (List String)
unfolding add_client
clients_by_domain [] by_domain = by_domain
clients_by_domain (c ∷ cs) by_domain = clients_by_domain cs (add_client c by_domain)

-- The finished rows. `now` is the clock when a row is made; one month serves all rows.
abbrev clients_of : Dict String (List String) → Row → ℕ
clients_of clients r = length (or_default [] (lookup r.security_domain clients))

abbrev row_fields : Runtime → Platform → String → Dict String (List String) → Row → Fields
unfolding fields
row_fields rt p server clients r = fields (
    ("server", str server)
    ∷ ("month", str (rt.strftime "%Y-%m" p.now))
    ∷ ("source_networker", str r.source_networker)
    ∷ ("security_domain", str r.security_domain)
    ∷ ("classification_status", str "derived")
    ∷ ("policy_name", str r.policy_name)
    ∷ ("workflow_name", str r.workflow_name)
    ∷ ("total_backup_bytes", int r.total_backup_bytes)
    ∷ ("total_backup_tb", real (p.terabytes r.total_backup_bytes))
    ∷ ("job_success_count", int (pos r.job_success_count))
    ∷ ("job_failed_count", int (pos r.job_failed_count))
    ∷ ("job_running_count", int (pos r.job_running_count))
    ∷ ("workflow_count", int (pos r.workflow_count))
    ∷ ("client_count", int (pos (clients_of clients r)))
    ∷ [])

unfoldable pub finished_rows :
    Runtime → Platform → String → Dict String (List String) → Rows → List Fields
unfolding row_fields lookup
finished_rows rt p server clients [] = []
finished_rows rt p server clients ((key, r) ∷ rows) =
    row_fields rt p server clients r ∷ finished_rows rt p server clients rows

unfoldable pub build_monthly_report :
    Runtime
    → Platform
    → String
    → List Fields
    → List Fields
    → List Fields
    → List Fields
    → List Fields
unfolding finished_rows clients_by_domain monthly_rows
build_monthly_report rt p server jobs clients workflows backups =
    finished_rows rt p server (clients_by_domain clients []) (monthly_rows jobs workflows backups)
