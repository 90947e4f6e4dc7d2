-- ===== src/Parser/Dd/Tests.antt =====
-- The law of the SNMP tables, applied to two columns of which one has a cell that the other lacks.
use integrated_backup_monito.Prelude.{String, ◌≡◌, refl, none, some, List, [], ◌∷◌, string_eq}
use integrated_backup_monito.Prelude.Dict.{Dict, lookup, keys, values, update}
use integrated_backup_monito.Value.{Value, str, obj, arr, Fields, fields, to_items}
use integrated_backup_monito.Value.Example.{plain}
use integrated_backup_monito.Parser.Dd.{table_cells, table_rows}
use integrated_backup_monito.Parser.Dd.Tables.{own, instances, table_rows-IsTable}

abbrev cell : String → String → Value
cell i v = obj (fields (("instance", str i) ∷ ("value", str v) ∷ []))

abbrev users : List (String × Value)
users =
    ("name", arr (to_items (cell "1" "app" ∷ cell "2" "db" ∷ [])))
    ∷ ("tenant_unit", arr (to_items (cell "2" "unit" ∷ [])))
    ∷ []

abbrev user_cells : List (String × String × Value)
user_cells =
    ("name", "1", str "app") ∷ ("name", "2", str "db") ∷ ("tenant_unit", "2", str "unit") ∷ []

table_rows-IsTable_example :
    (rows : Dict String Fields) × (table_rows plain (λ s. none) [] users ≡ some (values rows))
    × (keys rows ≡ update [] (instances user_cells))
    × (lookup "2" rows ≡ own "2" user_cells none)
unfolding table_cells fields to_items
table_rows-IsTable_example = table_rows-IsTable plain (λ s. none) [] users user_cells "2" refl
