-- ===== src/Parser/Dd/Tables.antt =====
-- The rows of an SNMP table, as the cells of each instance make them.
use integrated_backup_monito.Prelude.{
  String, ◌≡◌, refl, sym, ap, ◌∙◌, Option, none, some, List, [], ◌∷◌, ◌==◌, string_eq, eq_iff,
  contains, Bool-cases, inl, inr, false, if◌then◌else◌,
}
use integrated_backup_monito.Prelude.Dict.{
  Dict, lookup, insert, lookup-insert, or_default, keys, values, add, update,
}
use integrated_backup_monito.Value.{Value, Fields, Runtime, put}
use integrated_backup_monito.Parser.Dd.{new_row, table_cells, by_instance, table_rows}

-- The row that the cells of one instance make, in their order.
abbrev pub own : String → List (String × String × Value) → Option Fields → Option Fields
own i [] row = row
own i ((key, j, v) ∷ cells) row =
    own i cells (if i == j then some (put key v (or_default (new_row i) row)) else row)

abbrev pub instances : List (String × String × Value) → List String
instances [] = []
instances ((key, i, v) ∷ cells) = i ∷ instances cells

lookup-by_instance :
    (i : String) (cells : List (String × String × Value)) (rows : Dict String Fields)
    → lookup i (by_instance cells rows) ≡ own i cells (lookup i rows)
unfolding by_instance
lookup-by_instance i [] rows = refl
lookup-by_instance i ((key, j, v) ∷ cells) rows =
    let changed = put key v (or_default (new_row j) (lookup j rows)) in
    let later = lookup-by_instance i cells (insert j changed rows) in
    let found = lookup-insert i j changed rows in
    elim (Bool-cases (i == j)) [
      | inl here ↦ rw here (
          later
          ∙ ap (own i cells) (
              found
              ∙ rw here (
                  ap (λ k. some (put key v (or_default (new_row k) (lookup k rows))))
                    (sym ((eq_iff i j).0 here)))))
      | inr other ↦ rw other (later ∙ ap (own i cells) (found ∙ rw other refl))
    ]

add-cons : (k j : String) (s : List String) → (k == j) ≡ false → add k (j ∷ s) ≡ j ∷ add k s
unfolding add
add-cons k j s h = elim (Bool-cases (contains k s)) [
  | inl known ↦ rw (h, contains, known) refl
  | inr new ↦ rw (h, contains, new) refl
]

keys-insert :
    (k : String) (row : Fields) (rows : Dict String Fields)
    → keys (insert k row rows) ≡ add k (keys rows)
unfolding keys insert add
keys-insert k row [] = refl
keys-insert k row ((j, other) ∷ rows) = elim (Bool-cases (k == j)) [
  | inl here ↦ rw (here, contains) refl
  | inr further ↦
      rw further (ap (λ s. j ∷ s) (keys-insert k row rows) ∙ sym (add-cons k j (keys rows) further))
]

keys-by_instance :
    (cells : List (String × String × Value)) (rows : Dict String Fields)
    → keys (by_instance cells rows) ≡ update (keys rows) (instances cells)
unfolding by_instance update
keys-by_instance [] rows = refl
keys-by_instance ((key, i, v) ∷ cells) rows =
    let changed = put key v (or_default (new_row i) (lookup i rows)) in
    keys-by_instance cells (insert i changed rows)
    ∙ ap (λ s. update s (instances cells)) (keys-insert i changed rows)

-- Where the cells of all columns are read, the table has one row for each instance that has a cell, in
-- the order in which the instances first come, and the row of an instance is made of just its own
-- cells, column after column; a table with no cell has no row.
pub table_rows-IsTable :
    (rt : Runtime) (search_number : String → Option String) (numeric_keys : List String)
    (columns : List (String × Value)) (cells : List (String × String × Value)) (i : String)
    → table_cells rt search_number numeric_keys columns ≡ some cells
    → (rows : Dict String Fields) × (table_rows rt search_number numeric_keys columns
        ≡ some (values rows))
      × (keys rows ≡ update [] (instances cells))
      × (lookup i rows ≡ own i cells none)
unfolding table_rows keys lookup
table_rows-IsTable rt search_number numeric_keys columns cells i h =
    (by_instance cells [], rw h refl, keys-by_instance cells [], lookup-by_instance i cells [])
