-- ===== src/Parser/Zfs.antt =====
-- apps/parsers/zfs_rest_parser.py: what the rows share.
pub mod Rows
pub mod Payload
pub mod Keys
pub mod Counts
mod Tests
use integrated_backup_monito.Prelude.{
  ℕ, String, ◌<>◌, Bool, true, false, not, Option, none, some, List, [], ◌∷◌, ◌++◌, Eq, ◌==◌,
  string_eq, length, if◌then◌else◌,
}
use integrated_backup_monito.Prelude.Chain.{◌>>=◌}
use integrated_backup_monito.Prelude.Int.{ℤ, pos}
use integrated_backup_monito.Prelude.Dict.{lookup, or_default}
use integrated_backup_monito.Prelude.Text.{is_empty, lower, without_prefix, split_once}
use integrated_backup_monito.Value.{
  Float, finite, Value, null, int, real, str, obj, Items, Fields, end, field, Runtime, get, fields,
  or_else, truthy, dict_or_empty,
}
use integrated_backup_monito.Derived.{string}
use integrated_backup_monito.Parser.Common.{items, to_number, first_string, text_or, value_or_null}
use integrated_backup_monito.Parser.Networker.Counter.{counter}
use integrated_backup_monito.Parser.Networker.Summary.{text_at}

-- Python's `x + y`, and `round((x / y) * 100, 3)` for a y that is not 0
pub record Arithmetic : Type 0 where
  pub plus : Float → Float → Float
  pub percent : Float → Float → Float

-- `_first_mapping`
unfoldable pub first_mapping : Value → String → Fields
unfolding dict_or_empty get
first_mapping payload key = dict_or_empty (get key (dict_or_empty payload))

-- `detail or item`
abbrev pub or_item : Fields → Fields → Fields
or_item end item = item
or_item (field k v fs) item = field k v fs

-- `_used_percent`
abbrev percent_of : Arithmetic → Option Float → Option Float → Value
percent_of a (some used) (some total) = real (a.percent used total)
percent_of a _ _ = null

abbrev not_zero : Option Float → Option Float
unfolding truthy
not_zero none = none
not_zero (some x) = if truthy (real x) then some x else none

unfoldable pub used_percent : Arithmetic → Option Float → Option Float → Value
unfolding not_zero
used_percent a used total = percent_of a used (not_zero total)

unfoldable pub number : Runtime → Value → Value
unfolding to_number
number rt v = value_or_null real (to_number rt v)

unfoldable pub text : Runtime → String → Fields → Value
unfolding string get
text rt key fs = str (string rt (get key fs))

unfoldable pub rows_of : (Fields → Fields) → List Fields → List Fields
rows_of f [] = []
rows_of f (item ∷ rest) = f item ∷ rows_of f rest
