-- ===== src/Parser/Dd.antt =====
-- apps/parsers/dd_snmp_parser.py: the rows of SNMP tables. None of a result is an exception that the
-- parser does not catch. The instance of a row is a text, as apps/clients/snmp_client.py makes it: with
-- another one `table_rows` is none here.
pub mod Payload
pub mod Tables
pub mod Total
mod Tests
use integrated_backup_monito.Prelude.{
  ℕ, String, Bool, true, false, ◌&&◌, not, Option, none, some, List, [], ◌∷◌, ◌++◌, ◌==◌, string_eq,
  contains, if◌then◌else◌,
}
use integrated_backup_monito.Prelude.Chain.{◌>>=◌}
use integrated_backup_monito.Prelude.Dict.{Dict, lookup, insert, or_default, values}
use integrated_backup_monito.Prelude.Text.{is_empty, strip, lower, replace_char}
use integrated_backup_monito.Value.{
  Float, Value, null, str, arr, obj, real, bool, Items, nil, cons, Fields, field, end, Runtime,
  find, get, put, show, is_none,
}
use integrated_backup_monito.Parser.Common.{value_or_null}
use integrated_backup_monito.Parser.Networker.Counter.{counter}

pub record Row : Type 0 where
  pub at_instance : Value
  pub value : Value

-- `_walk_rows`
abbrev pub row_of : Option Value → Option Value → List Row → List Row
row_of (some i) (some v) rest = record { at_instance = i; value = v } ∷ rest
row_of none v rest = rest
row_of (some i) none rest = rest

unfoldable pub rows_in : Items → List Row
unfolding find
rows_in nil = []
rows_in (cons (obj fs) items) = row_of (find "instance" fs) (find "value" fs) (rows_in items)
rows_in (cons _ items) = rows_in items

unfoldable pub walk_rows : Value → List Row
unfolding rows_in
walk_rows (arr items) = rows_in items
walk_rows _ = []

-- `_first_value`: None, a row's value or a text
abbrev pub first_row : List Row → Value
first_row [] = null
first_row (r ∷ rs) = r.value

unfoldable pub first_value : Runtime → Value → Value
unfolding rows_in show
first_value rt (arr items) = first_row (rows_in items)
first_value rt null = null
first_value rt v = str (show rt v)

module _ (rt : Runtime) (search_number : String → Option String) where
  unfoldable pub floated : Option String → Option (Option Float)
  unfolding replace_char
  floated none = some none
  floated (some digits) = do x ← rt.parse_float (replace_char 44 "" digits); some (some x)

  -- `_to_float`; `search_number` is `re.search` of the pattern, and its whole match.
  unfoldable pub to_float_of : Value → Option (Option Float)
  unfolding show strip floated
  to_float_of null = some none
  to_float_of v = floated (search_number (strip (show rt v)))

  -- `_first_float`
  unfoldable pub first_float : Value → Option (Option Float)
  unfolding first_value to_float_of
  first_float v = to_float_of (first_value rt v)

  -- A cell of a table: the column, the instance and what the row has.
  abbrev pub Cell : Type 0
  Cell = String × String × Value

  unfoldable pub cell_value : List String → String → Value → Option Value
  unfolding to_float_of
  cell_value numeric_keys key v =
      if contains key numeric_keys
      then (do x ← to_float_of v; some (value_or_null real x))
      else some v

  -- The cells of a column
  unfoldable pub column_cells : List String → String → List Row → Option (List Cell)
  unfolding cell_value
  column_cells numeric_keys key [] = some []
  column_cells numeric_keys key (r ∷ rs) = elim r.at_instance [
    | str i ↦ (do
      v ← cell_value numeric_keys key r.value
      cells ← column_cells numeric_keys key rs
      some ((key, i, v) ∷ cells))
    | _ ↦ none
  ]

  unfoldable pub table_cells : List String → List (String × Value) → Option (List Cell)
  unfolding column_cells walk_rows
  table_cells numeric_keys [] = some []
  table_cells numeric_keys ((key, column) ∷ columns) = do
    cells ← column_cells numeric_keys key (walk_rows column)
    further ← table_cells numeric_keys columns
    some (cells ++ further)

-- `{"instance": instance}`
abbrev pub new_row : String → Fields
new_row i = field "instance" (str i) end

-- `by_instance` after the cells
unfoldable pub by_instance :
    List (String × String × Value) → Dict String Fields → Dict String Fields
unfolding insert lookup put
by_instance [] rows = rows
by_instance ((key, i, v) ∷ cells) rows =
    by_instance cells (insert i (put key v (or_default (new_row i) (lookup i rows))) rows)

module _ (rt : Runtime) (search_number : String → Option String) where
  -- `_table_rows`; a row without a float is read after those before it, so that an exception is the end
  -- whichever row it comes from.
  unfoldable pub table_rows : List String → List (String × Value) → Option (List Fields)
  unfolding table_cells by_instance values
  table_rows numeric_keys columns = do
    cells ← table_cells rt search_number numeric_keys columns
    some (values (by_instance cells []))

-- `_count_values`: the texts that are not blank, stripped and lowered.
unfoldable pub normal_values : List Row → Option (List String)
unfolding strip lower
normal_values [] = some []
normal_values (r ∷ rs) = elim r.value [
  | str s ↦ (do
    others ← normal_values rs
    some (if is_empty (lower (strip s)) then others else lower (strip s) ∷ others))
  | _ ↦ none
]

unfoldable pub count_values : Value → Option (Dict String ℕ)
unfolding normal_values walk_rows counter
count_values v = do texts ← normal_values (walk_rows v); some (counter texts)

-- `_enabled`
abbrev pub enabled_text : String → Value
enabled_text s =
    if contains s ("1" ∷ "enabled" ∷ "up" ∷ "true" ∷ [])
    then bool true
    else if contains s ("2" ∷ "disabled" ∷ "down" ∷ "false" ∷ [])
    then bool false
    else null

unfoldable pub enabled : Value → Option Value
unfolding strip lower
enabled null = some null
enabled (str s) = some (enabled_text (lower (strip s)))
enabled _ = none

-- `_state_up`
unfoldable pub state_up : Runtime → Value → Bool
unfolding show strip lower is_none
state_up rt v =
    not (is_none v)
    && contains (lower (strip (show rt v)))
        ("1" ∷ "enabled" ∷ "up" ∷ "ok" ∷ "online" ∷ "normal" ∷ "connected" ∷ [])
