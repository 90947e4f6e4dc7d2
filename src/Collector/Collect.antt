-- ===== src/Collector/Collect.antt =====
-- apps/collectors/factory.py, apps/collectors/base.py and apps/clients/rest_client.py,
-- `ReusableRestClient.fetch_named`. The metrics and the log are not here; the payload's fetch is a
-- parameter. An endpoint that is named like the key of the errors would share that key in the source;
-- here its payload and the errors are kept apart.
use integrated_backup_monito.Prelude.{
  ℕ, String, true, false, ◌&&◌, ◌||◌, ◌<>◌, Option, none, some, List, [], ◌∷◌, ◌==◌, string_eq,
  if◌then◌else◌,
}
use integrated_backup_monito.Prelude.Dict.{Dict, insert}
use integrated_backup_monito.Prelude.Text.{is_empty}
use integrated_backup_monito.Value.{Fields, fields}
use integrated_backup_monito.Writer.{CollectionResult, skipped_result}

-- `build_collector`: the class it makes, or the text of the `ValueError`.
pub data Kind : Type 0 where
  dd_snmp : Kind
  i6000_rest : Kind
  networker_rest : Kind
  zfs_rest : Kind
  dxi_cli : Kind
  refused : String → Kind

unfoldable pub build_collector : String → String → Kind
build_collector type protocol =
    if type == "i6000" && protocol == "snmp"
    then refused "i6000 SNMP collection is not supported; use protocol=rest"
    else if type == "DXi" && (protocol == "snmp" || protocol == "ssh")
    then refused "DXi SNMP/legacy collection is not supported; use protocol=cli"
    else if protocol == "snmp" && type == "DD"
    then dd_snmp
    else if protocol == "rest" && type == "i6000"
    then i6000_rest
    else if protocol == "rest" && type == "Networker"
    then networker_rest
    else if protocol == "rest" && type == "ZFS"
    then zfs_rest
    else if protocol == "cli" && type == "DXi"
    then dxi_cli
    else refused ("Unsupported collector protocol: " <> protocol)

-- What `BaseCollector` reads of its configuration; `skip_reason` is the property of that name.
pub record Identity : Type 0 where
  pub name : String
  pub target_type : String
  pub protocol : String
  pub skip_reason : Option String

-- The payload, or the text of the exception.
pub data Fetched : Type 0 where
  payload : Fields → Fetched
  failed : String → Fetched

abbrev pub fetched_result : ℕ → Identity → String → Fetched → CollectionResult
fetched_result now collector class (payload p) = record {
  collector = collector.name;
  target_type = collector.target_type;
  protocol = collector.protocol;
  collected_at = now;
  ok = true;
  payload = p;
  error = none;
  skipped = false;
  skip_reason = none;
  collection_class = class;
}
fetched_result now collector class (failed error) = record {
  collector = collector.name;
  target_type = collector.target_type;
  protocol = collector.protocol;
  collected_at = now;
  ok = false;
  payload = fields [];
  error = some error;
  skipped = false;
  skip_reason = none;
  collection_class = class;
}

abbrev pub truthy_text : Option String → Option String
truthy_text none = none
truthy_text (some s) = if is_empty s then none else some s

unfoldable pub collected : ℕ → Identity → String → Fetched → Option String → CollectionResult
unfolding fields skipped_result
collected now collector class fetched none = fetched_result now collector class fetched
collected now collector class fetched (some reason) =
    skipped_result now collector.name collector.target_type collector.protocol reason class

-- `BaseCollector.collect`; `now` is the clock when the result is made.
unfoldable pub collect : ℕ → Identity → String → Fetched → CollectionResult
unfolding collected
collect now collector class fetched =
    collected now collector class fetched (truthy_text collector.skip_reason)

-- What one of the gathered calls of `fetch_named` ends with.
pub data Gathered {ℓ} (A : Type ℓ) : Type ℓ where
  result : A → Gathered A
  cancelled : Gathered A
  exception : String → Gathered A

module _ {ℓ} {A : Type ℓ} where
  abbrev and_then :
      String
      → Gathered A
      → Dict String A × Dict String String
      → Option (Dict String A × Dict String String)
  unfolding insert
  and_then name cancelled noted = none
  and_then name (result a) (payloads, errors) = some (insert name a payloads, errors)
  and_then name (exception text) (payloads, errors) = some (payloads, insert name text errors)

  -- The loop over the names and their results; none is the `CancelledError` that passes.
  abbrev proceed :
      (Dict String A × Dict String String → Option (Dict String A × Dict String String))
      → Option (Dict String A × Dict String String)
      → Option (Dict String A × Dict String String)
  proceed f none = none
  proceed f (some noted) = f noted

  unfoldable pub fetch_named :
      List (String × Gathered A)
      → Dict String A × Dict String String
      → Option (Dict String A × Dict String String)
  unfolding insert
  fetch_named [] noted = some noted
  fetch_named ((name, gathered) ∷ rest) noted =
      proceed (fetch_named rest) (and_then name gathered noted)
