-- ===== src/Derived/RunKey.antt =====
-- apps/processors/derived.py, `_workflow_run_key`: the key of a workflow run.
pub mod Unique
use Prim.Native.Char.{Char, code}
use integrated_backup_monito.Prelude.{
  ◌<>◌, String, Bool, true, false, ◌&&◌, ◌||◌, not, Option, none, some, ◌==◌, string_eq, nat_beq,
  if◌then◌else◌,
}
use integrated_backup_monito.Prelude.Text.{
  strip, lower, is_empty, is_space, is_digit, all_chars, any_char,
}
use integrated_backup_monito.Value.{Value, int, str, Fields, Runtime, get, show}
use integrated_backup_monito.Derived.{string}

-- The field whose value names the run.
unfoldable pub root_field : String → Option String
root_field job_type =
    if job_type == "workflow job"
    then some "job_id"
    else if job_type == "backup action job" || job_type == "save job"
    then some "root_parent_job_id"
    else none

abbrev pub is_colon : Char → Bool
is_colon c = nat_beq (code c) b':'

abbrev is_zero : Char → Bool
is_zero c = nat_beq (code c) b'0'

-- A positive decimal number, or nothing.
unfoldable pub decimal_identity : String → Option String
unfolding is_digit
decimal_identity identity =
    if is_empty identity || not (all_chars is_digit identity) || all_chars is_zero identity
    then none
    else some identity

unfoldable pub run_identity : Runtime → Value → Option String
unfolding show strip decimal_identity
run_identity rt (int n) = decimal_identity (strip (show rt (int n)))
run_identity rt (str s) = decimal_identity (strip s)
run_identity rt _ = none

unfoldable pub run_source : Runtime → Fields → Option String
unfolding string get lower is_space
run_source rt job =
    let source = lower (string rt (get "source_networker" job)) in
    if is_empty source || any_char is_colon source || any_char is_space source
    then none
    else some source

abbrev pub root_identity : Runtime → Fields → Option String → Option String
root_identity rt job none = none
root_identity rt job (some name) = run_identity rt (get name job)

abbrev pub joined_key : Option String → Option String → String
joined_key none identity = ""
joined_key (some source) none = ""
joined_key (some source) (some identity) = source <> (":" <> identity)

unfoldable pub workflow_run_key : Runtime → Fields → String
unfolding string get lower root_field run_identity run_source
workflow_run_key rt job =
    joined_key (run_source rt job)
      (root_identity rt job (root_field (lower (string rt (get "type" job)))))
