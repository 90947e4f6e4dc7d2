-- ===== src/Collector/Payloads/Devices.antt =====
-- apps/collectors/dxi_cli_collector.py and dd_snmp_collector.py: the payloads that the two make of what
-- their clients bring. None is an exception of the client or of the parser. The metrics are not here.
mod Taken
mod Tests
use integrated_backup_monito.Prelude.{String, Option, none, some, List, [], ◌∷◌}
use integrated_backup_monito.Prelude.Chain.{◌>>=◌}
use integrated_backup_monito.Prelude.Dict.{Dict}
use integrated_backup_monito.Value.{Value, str, obj, Fields, Runtime, fields}
use integrated_backup_monito.Parser.Common.{Platform}
use integrated_backup_monito.Parser.Dxi.Sizes.{Regex, Scale}
use integrated_backup_monito.Parser.Dxi.Payload.{texts_of, parse_dxi_cli_outputs}
use integrated_backup_monito.Parser.Dd.Payload.{Gib, parse_dd_snmp_payload}
use integrated_backup_monito.Client.DxiCli.{Step, done, raised, DxiCliResult}
use integrated_backup_monito.Client.Snmp.{Answer, answered, runtime_error}

abbrev pub error_items : Dict String Fields → List (String × Value)
error_items [] = []
error_items ((name, error) ∷ errors) = (name, obj error) ∷ error_items errors

abbrev pub status_of : Dict String Fields → String
status_of [] = "success"
status_of (e ∷ es) = "partial"

-- `DXiCliCollector._collect_payload`, of what `run_commands` ends with.
unfoldable pub dxi_payload :
    Runtime → Platform → Regex → Scale → String → Step DxiCliResult → Option Fields
unfolding parse_dxi_cli_outputs fields
dxi_payload rt p rx scale name (raised text) = none
dxi_payload rt p rx scale name (done cli) = do
  summary ← parse_dxi_cli_outputs rt p rx scale cli.outputs name
  some (
      fields (
        ("summary", obj summary)
        ∷ ("collection_status", str (status_of cli.errors))
        ∷ ("command_errors", obj (fields (error_items cli.errors)))
        ∷ ("raw", obj (fields (("cli", obj (fields (texts_of cli.outputs))) ∷ [])))
        ∷ []))

-- `DDSnmpCollector._collect_payload`, of what `collect_values` ends with.
unfoldable pub dd_payload :
    Runtime → (String → Option String) → Gib → String → Answer Fields → Option Fields
unfolding parse_dd_snmp_payload fields
dd_payload rt search_number gib name (runtime_error text) = none
dd_payload rt search_number gib name (answered snmp) = do
  summary ← parse_dd_snmp_payload rt search_number gib snmp name
  some (
      fields (
        ("summary", obj summary)
        ∷ ("snmp", obj snmp)
        ∷ ("raw", obj (fields (("snmp", obj snmp) ∷ [])))
        ∷ []))
