-- ===== src/Client/Snmp/Tests.antt =====
-- The laws of the SNMP client, applied to a walk of two responses.
use integrated_backup_monito.Prelude.{String, none, List, [], ◌∷◌, string_eq}
use integrated_backup_monito.Client.Snmp.{Response}

abbrev response : String → String → Response
response oid value = record {
  error_indication = none;
  error_status = none;
  error_index = none;
  var_binds = record { oid_text = oid; value = value; oid_name = oid } ∷ [];
}

abbrev two_responses : List Response
two_responses = response "1.3.6.1.4.1.9.1" "12.5" ∷ response "1.3.6.1.4.1.9.2" "7" ∷ []
