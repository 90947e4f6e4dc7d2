-- ===== src/Parser/I6000.antt =====
-- apps/parsers/i6000_rest_parser.py: what is found in the answers of a tape library.
pub mod Parts
pub mod Ras
pub mod Payload
pub mod Found
pub mod Tickets
mod Tests
use integrated_backup_monito.Prelude.{
  String, Bool, true, false, Option, none, some, List, [], ◌∷◌, ◌++◌, ◌==◌, string_eq, contains,
  if◌then◌else◌,
}
use integrated_backup_monito.Prelude.Text.{strip, lower}
use integrated_backup_monito.Value.{
  Value, null, bool, int, real, str, datetime, arr, obj, Items, nil, cons, Fields, end, field,
  Runtime, elements, show,
}
use integrated_backup_monito.Parser.Common.{as_list}

-- `_find_values`
unfoldable pub same_key : String → String → Bool
unfolding lower
same_key a b = lower a == lower b

unfoldable pub values_at : Bool → Value → List Value
unfolding as_list elements
values_at true v = elements (as_list v)
values_at false v = []

unfoldable mutual
  unfolding same_key values_at

  pub find_values : Value → String → List Value
  find_values (obj fs) key = find_in_fields fs key
  find_values (arr items) key = find_in_items items key
  find_values null key = []
  find_values (bool b) key = []
  find_values (int n) key = []
  find_values (real x) key = []
  find_values (str s) key = []
  find_values (datetime d) key = []

  pub find_in_items : Items → String → List Value
  find_in_items nil key = []
  find_in_items (cons v items) key = find_values v key ++ find_in_items items key

  pub find_in_fields : Fields → String → List Value
  find_in_fields end key = []
  find_in_fields (field k v fs) key =
      values_at (same_key k key) v ++ (find_values v key ++ find_in_fields fs key)

-- The members that are dicts
unfoldable pub mappings : List Value → List Fields
mappings [] = []
mappings (obj fs ∷ vs) = fs ∷ mappings vs
mappings (_ ∷ vs) = mappings vs

-- `_first_mapping`
abbrev first_of : List Fields → Fields
first_of [] = end
first_of (fs ∷ rest) = fs

unfoldable pub first_mapping : List Value → Fields
unfolding mappings
first_mapping values = first_of (mappings values)

-- `_boolish`
abbrev bool_of : String → Option Bool
bool_of normalized =
    if contains normalized ("true" ∷ "1" ∷ "yes" ∷ [])
    then some true
    else if contains normalized ("false" ∷ "0" ∷ "no" ∷ [])
    then some false
    else none

unfoldable pub boolish : Runtime → Value → Option Bool
unfolding strip show lower
boolish rt null = none
boolish rt v = bool_of (lower (strip (show rt v)))

-- `_first_not_none`
abbrev pub first_not_none {ℓ} : {A : Type ℓ} → Option A → Option A → Option A
first_not_none none b = b
first_not_none (some a) b = some a
