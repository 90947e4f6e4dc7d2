-- ===== src/Parser/Dd/Total.antt =====
-- The payloads that the parser takes: those whose values are texts and rows of texts.
use integrated_backup_monito.Prelude.{
  String, ◌≡◌, refl, Option, some, List, [], ◌∷◌, string_eq, contains, All, Bool-cases,
  Option-cases, inl, inr,
}
use integrated_backup_monito.Prelude.Chain.{◌>>=◌}
use integrated_backup_monito.Prelude.Text.{replace_char}
use integrated_backup_monito.Value.{
  Value, null, str, arr, obj, int, real, bool, datetime, Items, nil, cons, Fields, Runtime, find,
  get,
}
use integrated_backup_monito.Parser.Dd.{
  Row, rows_in, walk_rows, first_row, first_value, floated, to_float_of, first_float, cell_value,
  column_cells, table_cells, table_rows, normal_values, count_values, enabled,
}
use integrated_backup_monito.Parser.Dd.Payload.{
  Gib, columns_of, compression_numeric_keys, compression_columns, unit_numeric_keys, unit_columns,
  ifgroup_columns, user_columns, replication_columns, parse_compression, parse_dd_capacity,
  parse_throughput, parse_connections, storage_units, parse_ddboost, parse_replication,
  parse_dd_snmp_payload,
}

-- The step has a result.
abbrev pub Succeeds {ℓ} : {A : Type ℓ} → Option A → Type ℓ
Succeeds {A = A} o = (a : A) × (o ≡ some a)

-- A row's dict: its instance and its value are texts.
abbrev pub IsRow : Fields → Type 0
IsRow fs =
    (i : String) × (v : String) × (find "instance" fs ≡ some (str i))
    × (find "value" fs ≡ some (str v))

abbrev pub AreRows : Items → Type 0
AreRows nil = Unit
AreRows (cons (obj fs) items) = IsRow fs × AreRows items
AreRows (cons (arr xs) items) = ⊥
AreRows (cons (str s) items) = ⊥
AreRows (cons (int n) items) = ⊥
AreRows (cons (real x) items) = ⊥
AreRows (cons (bool b) items) = ⊥
AreRows (cons (datetime d) items) = ⊥
AreRows (cons null items) = ⊥

-- What the client collects for a metric: nothing, a text, or rows.
abbrev pub IsCollected : Value → Type 0
IsCollected null = Unit
IsCollected (str s) = Unit
IsCollected (arr items) = AreRows items
IsCollected (obj fs) = ⊥
IsCollected (int n) = ⊥
IsCollected (real x) = ⊥
IsCollected (bool b) = ⊥
IsCollected (datetime d) = ⊥

abbrev IsText : Row → Type 0
IsText r = (i : String) × (v : String) × (r.at_instance ≡ str i) × (r.value ≡ str v)

rows_in-AreTexts : (items : Items) → AreRows items → All IsText (rows_in items)
unfolding rows_in
rows_in-AreTexts nil h = tt
rows_in-AreTexts (cons (obj fs) items) ((i, v, e1, e2), more) =
    rw (e1, e2) ((i, v, refl, refl), rows_in-AreTexts items more)
rows_in-AreTexts (cons (arr xs) items) h = absurd h
rows_in-AreTexts (cons (str s) items) h = absurd h
rows_in-AreTexts (cons (int n) items) h = absurd h
rows_in-AreTexts (cons (real x) items) h = absurd h
rows_in-AreTexts (cons (bool b) items) h = absurd h
rows_in-AreTexts (cons (datetime d) items) h = absurd h
rows_in-AreTexts (cons null items) h = absurd h

walk_rows-AreTexts : (v : Value) → IsCollected v → All IsText (walk_rows v)
unfolding walk_rows
walk_rows-AreTexts (arr items) h = rows_in-AreTexts items h
walk_rows-AreTexts null h = tt
walk_rows-AreTexts (str s) h = tt
walk_rows-AreTexts (obj fs) h = tt
walk_rows-AreTexts (int n) h = tt
walk_rows-AreTexts (real x) h = tt
walk_rows-AreTexts (bool b) h = tt
walk_rows-AreTexts (datetime d) h = tt

-- A chain of steps that all have results has one.
then_Succeeds {ℓ κ} :
    {A : Type ℓ} {B : Type κ} (m : Option A) (f : A → Option B)
    → Succeeds m
    → ((a : A) → Succeeds (f a))
    → Succeeds (m >>= f)
then_Succeeds m f (a, e) g = rw e (g a)

normal_values-Succeeds : (rs : List Row) → All IsText rs → Succeeds (normal_values rs)
unfolding normal_values
normal_values-Succeeds [] h = ([], refl)
normal_values-Succeeds (r ∷ rs) ((i, v, e1, e2), more) =
    let (others, e) = normal_values-Succeeds rs more in rw (e2, e) (_, refl)

count_values-Succeeds : (v : Value) → IsCollected v → Succeeds (count_values v)
unfolding count_values
count_values-Succeeds v h =
    then_Succeeds (normal_values (walk_rows v)) _
      (normal_values-Succeeds (walk_rows v) (walk_rows-AreTexts v h)) (λ texts. (_, refl))

enabled-row : (rs : List Row) → All IsText rs → Succeeds (enabled (first_row rs))
unfolding enabled
enabled-row [] h = (null, refl)
enabled-row (r ∷ rs) ((i, v, e1, e2), more) = rw e2 (_, refl)

enabled-Succeeds :
    (rt : Runtime) (v : Value) → IsCollected v → Succeeds (enabled (first_value rt v))
unfolding enabled first_value
enabled-Succeeds rt null h = (_, refl)
enabled-Succeeds rt (str s) h = (_, refl)
enabled-Succeeds rt (arr items) h = enabled-row (rows_in items) (rows_in-AreTexts items h)
enabled-Succeeds rt (obj fs) h = absurd h
enabled-Succeeds rt (int n) h = absurd h
enabled-Succeeds rt (real x) h = absurd h
enabled-Succeeds rt (bool b) h = absurd h
enabled-Succeeds rt (datetime d) h = absurd h

module _ (rt : Runtime) (search_number : String → Option String)
    (reads : (s d : String)
      → search_number s ≡ some d
      → Succeeds (rt.parse_float (replace_char 44 "" d))) where
  floated-Succeeds : (s : String) → Succeeds (floated rt search_number (search_number s))
  unfolding floated
  floated-Succeeds s = elim (Option-cases (search_number s)) [
    | inl unfound ↦ rw unfound (_, refl)
    | inr (d, found) ↦ let (x, e) = reads s d found in rw (found, e) (_, refl)
  ]

  to_float_of-Succeeds : (v : Value) → Succeeds (to_float_of rt search_number v)
  unfolding to_float_of
  to_float_of-Succeeds null = (_, refl)
  to_float_of-Succeeds (obj fs) = floated-Succeeds _
  to_float_of-Succeeds (arr items) = floated-Succeeds _
  to_float_of-Succeeds (str s) = floated-Succeeds _
  to_float_of-Succeeds (int n) = floated-Succeeds _
  to_float_of-Succeeds (real x) = floated-Succeeds _
  to_float_of-Succeeds (bool b) = floated-Succeeds _
  to_float_of-Succeeds (datetime d) = floated-Succeeds _

  first_float-Succeeds : (v : Value) → Succeeds (first_float rt search_number v)
  unfolding first_float
  first_float-Succeeds v = to_float_of-Succeeds (first_value rt v)

  cell_value-Succeeds :
      (numeric_keys : List String) (key : String) (v : Value)
      → Succeeds (cell_value rt search_number numeric_keys key v)
  unfolding cell_value
  cell_value-Succeeds numeric_keys key v = elim (Bool-cases (contains key numeric_keys)) [
    | inl numeric ↦ let (x, e) = to_float_of-Succeeds v in rw (numeric, e) (_, refl)
    | inr plain ↦ rw plain (v, refl)
  ]

  column_cells-Succeeds :
      (numeric_keys : List String) (key : String) (rs : List Row)
      → All IsText rs
      → Succeeds (column_cells rt search_number numeric_keys key rs)
  unfolding column_cells
  column_cells-Succeeds numeric_keys key [] h = ([], refl)
  column_cells-Succeeds numeric_keys key (r ∷ rs) ((i, v, e1, e2), more) =
      let (w, f1) = cell_value-Succeeds numeric_keys key r.value in
      let (cells, f2) = column_cells-Succeeds numeric_keys key rs more in rw (e1, f1, f2) (_, refl)

  -- The columns of a payload that the client collects.
  abbrev pub AreColumns : List (String × Value) → Type 0
  AreColumns [] = Unit
  AreColumns ((key, column) ∷ columns) = IsCollected column × AreColumns columns

  table_cells-Succeeds :
      (numeric_keys : List String) (columns : List (String × Value))
      → AreColumns columns
      → Succeeds (table_cells rt search_number numeric_keys columns)
  unfolding table_cells
  table_cells-Succeeds numeric_keys [] h = ([], refl)
  table_cells-Succeeds numeric_keys ((key, column) ∷ columns) (first, more) =
      let (cells, e1) =
        column_cells-Succeeds numeric_keys key (walk_rows column)
          (walk_rows-AreTexts column first) in
      let (further, e2) = table_cells-Succeeds numeric_keys columns more in rw (e1, e2) (_, refl)

  table_rows-Succeeds :
      (numeric_keys : List String) (columns : List (String × Value))
      → AreColumns columns
      → Succeeds (table_rows rt search_number numeric_keys columns)
  unfolding table_rows
  table_rows-Succeeds numeric_keys columns h =
      then_Succeeds (table_cells rt search_number numeric_keys columns) _
        (table_cells-Succeeds numeric_keys columns h) (λ cells. (_, refl))

  module _ (gib : Gib) (payload : Fields)
      (held : (key : String) → IsCollected (get key payload)) where
    columns_of-AreColumns : (names : List (String × String)) → AreColumns (columns_of names payload)
    unfolding columns_of
    columns_of-AreColumns [] = tt
    columns_of-AreColumns ((name, key) ∷ names) = (held key, columns_of-AreColumns names)

    table_of :
        (numeric_keys : List String) (names : List (String × String))
        → Succeeds (table_rows rt search_number numeric_keys (columns_of names payload))
    table_of numeric_keys names =
        table_rows-Succeeds numeric_keys (columns_of names payload) (columns_of-AreColumns names)

    float_at : (key : String) → Succeeds (first_float rt search_number (get key payload))
    float_at key = first_float-Succeeds (get key payload)

    parse_compression-Succeeds : Succeeds (parse_compression rt search_number gib payload)
    unfolding parse_compression
    parse_compression-Succeeds =
        then_Succeeds _ _ (table_of compression_numeric_keys compression_columns)
          (λ rows. (_, refl))

    parse_dd_capacity-Succeeds : Succeeds (parse_dd_capacity rt search_number gib payload)
    unfolding parse_dd_capacity
    parse_dd_capacity-Succeeds = then_Succeeds _ _ (float_at "file_system_space_size") (λ total.
        then_Succeeds _ _ (float_at "file_system_space_used") (λ used.
          then_Succeeds _ _ (float_at "file_system_space_available") (λ available.
            then_Succeeds _ _ (float_at "file_system_percent_used") (λ percent. (_, refl)))))

    parse_throughput-Succeeds : Succeeds (parse_throughput rt search_number gib payload)
    unfolding parse_throughput
    parse_throughput-Succeeds = then_Succeeds _ _ (float_at "ddboost_pre_comp_kbps") (λ pre.
        then_Succeeds _ _ (float_at "ddboost_post_comp_kbps") (λ post.
          then_Succeeds _ _ (float_at "ddboost_network_kbps")
            (λ network. then_Succeeds _ _ (float_at "ddboost_read_kbps") (λ read. (_, refl)))))

    parse_connections-Succeeds : Succeeds (parse_connections rt search_number gib payload)
    unfolding parse_connections
    parse_connections-Succeeds =
        then_Succeeds _ _ (float_at "ddboost_backup_connections") (λ backup.
          then_Succeeds _ _ (float_at "ddboost_restore_connections") (λ restore. (_, refl)))

    storage_units-Succeeds : Succeeds (storage_units rt search_number gib payload)
    unfolding storage_units
    storage_units-Succeeds = table_of unit_numeric_keys unit_columns

    parse_ddboost-Succeeds : Succeeds (parse_ddboost rt search_number gib payload)
    unfolding parse_ddboost
    parse_ddboost-Succeeds =
        then_Succeeds _ _
          (enabled-Succeeds rt (get "ddboost_status" payload) (held "ddboost_status"))
          (λ is_enabled. then_Succeeds _ _ parse_throughput-Succeeds (λ throughput.
            then_Succeeds _ _ parse_connections-Succeeds (λ connections.
              then_Succeeds _ _ (float_at "ddboost_compression_ratio") (λ ratio.
                then_Succeeds _ _ (table_of [] ifgroup_columns) (λ ifgroups.
                  then_Succeeds _ _ (table_of [] user_columns)
                    (λ users. then_Succeeds _ _ storage_units-Succeeds (λ units. (_, refl))))))))

    parse_replication-Succeeds : Succeeds (parse_replication rt search_number gib payload)
    unfolding parse_replication
    parse_replication-Succeeds =
        then_Succeeds _ _ (table_of [] replication_columns) (λ rows. (_, refl))

    -- The parser takes a payload of texts and rows of texts, if each number that it finds in a text is
    -- read.
    pub parse_dd_snmp_payload-Succeeds :
        (name : String) → Succeeds (parse_dd_snmp_payload rt search_number gib payload name)
    unfolding parse_dd_snmp_payload
    parse_dd_snmp_payload-Succeeds name = then_Succeeds _ _ parse_dd_capacity-Succeeds (λ capacity.
        then_Succeeds _ _ parse_compression-Succeeds (λ compression.
          then_Succeeds _ _ parse_ddboost-Succeeds (λ ddboost.
            then_Succeeds _ _ (float_at "file_system_reduction_percent") (λ reduction.
              then_Succeeds _ _
                (count_values-Succeeds (get "current_alert_severity" payload)
                  (held "current_alert_severity"))
                (λ alerts.
                  then_Succeeds _ _ parse_replication-Succeeds (λ replication. (_, refl)))))))
