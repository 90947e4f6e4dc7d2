-- ===== src/Parser/Common.antt =====
-- What the parsers of apps/parsers share, as networker_rest_parser.py has it. None of a result is an
-- exception that the parser does not catch.
use integrated_backup_monito.Prelude.Chain.{◌>>=◌}
use integrated_backup_monito.Prelude.{
  ℕ, String, Option, none, some, List, [], ◌∷◌, string_eq, if◌then◌else◌,
}
use integrated_backup_monito.Prelude.Int.{ℤ}
use integrated_backup_monito.Prelude.Text.{strip, is_empty}
use integrated_backup_monito.Value.{
  Float, Value, null, arr, obj, Items, nil, cons, Fields, Runtime, get, to_items, show,
}
use integrated_backup_monito.Derived.{string}

-- What the parsers take from the interpreter and its library: `int(text)`; `int(x * n)` of a floating x,
-- none where that is no number; `round(n / 1000**4, 3)`; `list(shlex.shlex(text, posix=True))` with
-- whitespace split and no comments, none for an unclosed quote; and the clock.
pub record Platform : Type 0 where
  pub parse_int : String → Option ℤ
  pub scaled : Float → ℕ → Option ℤ
  pub terabytes : ℤ → Float
  pub shell_tokens : String → Option (List String)
  pub now : ℕ

-- `[f(x) for x in xs]`
unfoldable pub each {ℓ κ} : {A : Type ℓ} {B : Type κ} → (A → Option B) → List A → Option (List B)
each f [] = some []
each f (x ∷ xs) = do y ← f x; ys ← each f xs; some (y ∷ ys)

-- `[item for item in items if isinstance(item, dict)]`
unfoldable pub dicts : Items → List Fields
dicts nil = []
dicts (cons (obj fs) items) = fs ∷ dicts items
dicts (cons _ items) = dicts items

-- `_items`
abbrev pub list_dicts : Value → List Fields
list_dicts (arr items) = dicts items
list_dicts _ = []

unfoldable pub items : Value → String → List Fields
unfolding dicts get
items (obj payload) key = list_dicts (get key payload)
items (arr payload) key = dicts payload
items _ key = []

-- `_as_list`
unfoldable pub as_list : Value → Items
as_list null = nil
as_list (arr items) = items
as_list v = cons v nil

-- `_int`, `_number`
unfoldable pub to_int : Runtime → Platform → Value → Option ℤ
unfolding strip show
to_int rt p v = p.parse_int (strip (show rt v))

unfoldable pub to_number : Runtime → Value → Option Float
unfolding strip show
to_number rt v = rt.parse_float (strip (show rt v))

-- `a or b` of texts
abbrev pub text_or : String → String → String
text_or a b = if is_empty a then b else a

-- `_first_string`
unfoldable pub first_string : Runtime → List Value → String
unfolding string
first_string rt [] = ""
first_string rt (v ∷ vs) = let rest = first_string rt vs in text_or (string rt v) rest

-- None, or the text or the number
abbrev pub value_or_null {ℓ} : {A : Type ℓ} → (A → Value) → Option A → Value
value_or_null f none = null
value_or_null f (some a) = f a

-- A list of dicts as a value
abbrev pub objects : List Fields → List Value
objects [] = []
objects (r ∷ rs) = obj r ∷ objects rs

unfoldable pub rows_value : List Fields → Value
unfolding to_items
rows_value rows = arr (to_items (objects rows))
