-- ===== src/Config/Placeholder.antt =====
-- apps/core/config.py: values that are still to be filled in.
use integrated_backup_monito.Prelude.{
  String, Bool, true, false, ◌||◌, Option, none, some, ◌==◌, string_eq, if◌then◌else◌,
}
use integrated_backup_monito.Prelude.Text.{strip, ends_with}
use integrated_backup_monito.Value.{
  Value, null, bool, int, real, str, datetime, arr, obj, Items, nil, cons, Fields, end, field,
  Runtime, show,
}

-- `is_unfilled_placeholder`
unfoldable pub is_unfilled_placeholder : String → Bool
unfolding strip ends_with
is_unfilled_placeholder value =
    let normalized = strip value in
    normalized == "" || normalized == "TO_BE_FILLED" || ends_with "_TO_BE_FILLED" normalized

-- `has_unfilled_values`
unfoldable mutual
  unfolding is_unfilled_placeholder

  pub has_unfilled_values : Value → Bool
  has_unfilled_values null = true
  has_unfilled_values (str s) = is_unfilled_placeholder s
  has_unfilled_values (obj fs) = has_unfilled_fields fs
  has_unfilled_values (arr items) = has_unfilled_items items
  has_unfilled_values (bool b) = false
  has_unfilled_values (int n) = false
  has_unfilled_values (real x) = false
  has_unfilled_values (datetime d) = false

  pub has_unfilled_items : Items → Bool
  has_unfilled_items nil = false
  has_unfilled_items (cons v items) = has_unfilled_values v || has_unfilled_items items

  pub has_unfilled_fields : Fields → Bool
  has_unfilled_fields end = false
  has_unfilled_fields (field k v fs) = has_unfilled_values v || has_unfilled_fields fs

-- `_optional`
abbrev filled : String → Option String
filled normalized = if is_unfilled_placeholder normalized then none else some normalized

unfoldable pub optional : Runtime → Value → Option String
unfolding show strip is_unfilled_placeholder
optional rt null = none
optional rt v = filled (strip (show rt v))
