-- ===== src/Parser/Networker/Tests.antt =====
-- The theorems on the parser of NetWorker's answers, applied to small records.
use integrated_backup_monito.Prelude.{
  ℕ, String, ◌≡◌, refl, Bool, false, ◌&&◌, Option, none, some, List, [], ◌∷◌, ◌==◌, string_eq,
  pair_eq, triple_eq,
}
use integrated_backup_monito.Prelude.Int.{pos}
use integrated_backup_monito.Prelude.Text.{
  strip, is_empty, begins_with, is_space, drop_while, drop_while_end, lower, lower_char,
}
use integrated_backup_monito.Prelude.Dict.{or_default}
use integrated_backup_monito.Value.{
  finite, int, str, arr, obj, Fields, end, fields, to_items, find, get,
}
use integrated_backup_monito.Value.Example.{plain}
use integrated_backup_monito.Lookup.Result.{ok}
use integrated_backup_monito.Lookup.Models.{validate_source_networker, source_text}
use integrated_backup_monito.Parser.Common.{Platform, each, items, dicts, to_number}
use integrated_backup_monito.Parser.Networker.{protection_group, size_bytes}
use integrated_backup_monito.Parser.Networker.Records.{normalize_job}
use integrated_backup_monito.Parser.Networker.Group.{IsMarked, protection_group-IsMarked}
use integrated_backup_monito.Parser.Networker.Counter.{count_at}
use integrated_backup_monito.Parser.Networker.Summary.{
  has_status, any_record, domain_policy, counts_by_domain, total_bytes, keep_records,
}
use integrated_backup_monito.Parser.Networker.Summary.Counts.{count_where, counts_by_domain-count}
use integrated_backup_monito.Parser.Networker.Monthly.{Key, key_of, monthly_rows}
use integrated_backup_monito.Parser.Networker.Monthly.Rows.{row_at}
use integrated_backup_monito.Parser.Networker.Monthly.Counted.{monthly_rows-counts}
use integrated_backup_monito.Parser.Networker.Payload.{Payload, parse_networker_rest_payload}
use integrated_backup_monito.Parser.Networker.Payload.Domain.{IsUnified, parse-IsUnified}

abbrev simple : Platform
simple = record {
  parse_int = λ s. none;
  scaled = λ x n. none;
  terabytes = λ n. finite (pos 0) (pos 0);
  shell_tokens = λ s. some ("save" ∷ "-g" ∷ "gold" ∷ []);
  now = 0;
}

abbrev job_of : String → String → Fields
job_of policy status = fields (
    ("security_domain", str "core")
    ∷ ("policy_name", str policy)
    ∷ ("workflow_name", str "nightly")
    ∷ ("status", str status)
    ∷ [])

abbrev some_jobs : List Fields
some_jobs =
    job_of "gold" "success"
    ∷ job_of "gold" "failed"
    ∷ job_of "" "success"
    ∷ job_of "gold" "success"
    ∷ []

abbrev a_backup : Fields
a_backup = fields (
    ("security_domain", str "core")
    ∷ ("policy_name", str "gold")
    ∷ ("workflow_name", str "nightly")
    ∷ ("size_bytes", int (pos 2048))
    ∷ [])

counts_by_domain-count_example :
    or_default 0 (count_at "core" "gold" (counts_by_domain (has_status "success") some_jobs))
    ≡ count_where (λ r. has_status "success" r && (("core", "gold") == domain_policy r)) some_jobs
counts_by_domain-count_example =
    counts_by_domain-count "core" "gold" (has_status "success") some_jobs

two_successes :
    count_where (λ r. has_status "success" r && (("core", "gold") == domain_policy r)) some_jobs ≡ 2
unfolding get find fields
two_successes = refl

abbrev gold_key : Key
gold_key = ("core", "gold", "nightly")

abbrev at_gold : (Fields → Bool) → List Fields → ℕ
at_gold test records = count_where (λ e. test e && (gold_key == key_of e)) records

monthly_rows-counts_example :
    ((row_at gold_key (monthly_rows some_jobs [] (a_backup ∷ []))).total_backup_bytes
      ≡ total_bytes (keep_records (λ b. gold_key == key_of b) (a_backup ∷ [])))
    × ((row_at gold_key (monthly_rows some_jobs [] (a_backup ∷ []))).job_success_count
        ≡ at_gold (has_status "success") some_jobs)
    × ((row_at gold_key (monthly_rows some_jobs [] (a_backup ∷ []))).job_failed_count
        ≡ at_gold (has_status "failed") some_jobs)
    × ((row_at gold_key (monthly_rows some_jobs [] (a_backup ∷ []))).job_running_count
        ≡ at_gold (has_status "running") some_jobs)
    × ((row_at gold_key (monthly_rows some_jobs [] (a_backup ∷ []))).workflow_count
        ≡ at_gold any_record [])
monthly_rows-counts_example = monthly_rows-counts gold_key some_jobs [] (a_backup ∷ [])

grouped : is_empty (protection_group simple (str "save -g gold")) ≡ false
unfolding protection_group strip drop_while drop_while_end is_space begins_with
grouped = refl

protection_group-IsMarked_example :
    (command : String) × (tokens : List String) × (token : String) × (str "save -g gold"
      ≡ str command)
    × (simple.shell_tokens command ≡ some tokens)
    × IsMarked tokens token
    × (protection_group simple (str "save -g gold") ≡ strip token)
    × (begins_with b'-' (strip token) ≡ false)
protection_group-IsMarked_example = protection_group-IsMarked simple (str "save -g gold") grouped

abbrev answers : Fields
answers = fields (
    (
      "jobs",
      arr (
          to_items (
            obj (
              fields (
                ("id", str "7") ∷ ("state", str "Completed") ∷ ("clientHostname", str "Db1.") ∷ []))
            ∷ [])),
    )
    ∷ (
      "clients",
      obj (
          fields
            (("clients", arr (to_items (obj (fields (("hostname", str "db1") ∷ [])) ∷ []))) ∷ [])),
    )
    ∷ [])

abbrev parsed : Option Payload
parsed = parse_networker_rest_payload plain simple answers "nw1" (str " CORE ")

abbrev nothing : Payload
nothing = record {
  summary = end;
  jobs = [];
  backups = [];
  clients = [];
  policies = [];
  workflows = [];
  monthly_report = [];
}

abbrev result : Payload
result = or_default nothing parsed

returned : parsed ≡ some result
unfolding parse_networker_rest_payload validate_source_networker source_text strip drop_while
    drop_while_end is_space lower lower_char each items dicts get find fields to_items normalize_job
    size_bytes to_number
returned = refl

parse-IsUnified_example :
    (source : String) × (validate_source_networker plain (str " CORE ") ≡ ok source)
    × IsUnified source result
parse-IsUnified_example = parse-IsUnified plain simple answers "nw1" (str " CORE ") result returned
