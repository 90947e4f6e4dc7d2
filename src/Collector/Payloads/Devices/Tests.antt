-- ===== src/Collector/Payloads/Devices/Tests.antt =====
-- The law of the Data Domain collector, applied to a name and a walk of one column.
use integrated_backup_monito.Prelude.{String, refl, none, some, [], ◌∷◌, string_eq}
use integrated_backup_monito.Prelude.Dict.{Dict}
use integrated_backup_monito.Prelude.Int.{pos}
use integrated_backup_monito.Value.{Runtime, finite}
use integrated_backup_monito.Value.Example.{plain}
use integrated_backup_monito.Parser.Dd.Payload.{Gib}
use integrated_backup_monito.Parser.Dd.Total.{Succeeds}
use integrated_backup_monito.Client.Snmp.{Response, collect_values}
use integrated_backup_monito.Collector.Payloads.Devices.{dd_payload}
use integrated_backup_monito.Collector.Payloads.Devices.Taken.{dd_payload-Succeeds}

abbrev reply : String → Response
reply oid = record {
  error_indication = none;
  error_status = none;
  error_index = none;
  var_binds = record { oid_text = oid; value = "dd-core"; oid_name = oid } ∷ [];
}

abbrev same_size : Gib
same_size = record { bytes = λ x. x; quotient = λ x y. x }

-- `float` of the tests
abbrev reading : Runtime
reading = record plain { parse_float = λ s. some (finite (pos 0) (pos 0)) }

abbrev scalar_oids : Dict String String
scalar_oids = ("system_hostname", "1.3.6.1.2.1.1.5.0") ∷ []

abbrev column_oids : Dict String String
column_oids = ("replication_source", "1.3.6.1.4.1.19746.1.8.1.1.1.7") ∷ []

dd_payload-Succeeds_example : Succeeds (
    dd_payload reading
      (λ s. some s)
      same_size
      "dd"
      (collect_values reply (λ oid. reply (oid) ∷ []) scalar_oids column_oids))
unfolding collect_values
dd_payload-Succeeds_example =
    dd_payload-Succeeds reply (λ oid. reply (oid) ∷ []) reading (λ s. some s) same_size "dd"
      scalar_oids column_oids _ (λ s d h. (_, refl)) refl
