-- ===== src/Value.antt =====
-- Python's values as the program meets them in JSON and YAML documents, and what the program asks
-- of the interpreter and its standard library. No file of the repository is modelled here.
pub mod Example
pub mod Merge
use integrated_backup_monito.Prelude.{
  suc, bool_eq, ℕ, ◌*◌, String, Bool, true, false, ◌&&◌, not, Option, none, some, List, [], ◌∷◌,
  ◌==◌, string_eq, ltb, leb, nat_beq, if◌then◌else◌,
}
use integrated_backup_monito.Prelude.Int.{ℤ, pos, negsuc}
use integrated_backup_monito.Prelude.Text.{is_empty, show_ℤ}

-- `finite m e` is m * 2 ^ e; `infinity true` is the negative one.
pub data Float : Type 0 where
  finite : ℤ → ℤ → Float
  infinity : Bool → Float
  nan : Float

-- An aware `datetime` is its instant, in microseconds since one day before year 1 of UTC so that every
-- offset leaves a number, and its offset from UTC. A naive one is its own reading of the calendar.
pub data Datetime : Type 0 where
  naive : ℕ → Datetime
  aware : ℕ → ℤ → Datetime

mutual
  -- A dict's items in the order of insertion.
  pub data Fields : Type 0 where
    field : String → Value → Fields → Fields
    end : Fields

  pub data Value : Type 0 where
    obj : Fields → Value
    arr : Items → Value
    str : String → Value
    int : ℤ → Value
    real : Float → Value
    bool : Bool → Value
    datetime : Datetime → Value
    null : Value

  -- A list's or a tuple's members.
  pub data Items : Type 0 where
    cons : Value → Items → Items
    nil : Items

unfoldable pub elements : Items → List Value
elements nil = []
elements (cons v xs) = v ∷ elements xs

unfoldable pub to_items : List Value → Items
to_items [] = nil
to_items (v ∷ xs) = cons v (to_items xs)

-- `d.get(k)`, where a missing key is told from None by the option, and by default is None.
unfoldable pub find : String → Fields → Option Value
find k end = none
find k (field j v fs) = if k == j then some v else find k fs

abbrev pub or_null : Option Value → Value
or_null none = null
or_null (some v) = v

unfoldable pub get : String → Fields → Value
unfolding find
get k fs = or_null (find k fs)

-- `d | {k: v}`: the key keeps its place.
unfoldable pub put : String → Value → Fields → Fields
put k v end = field k v end
put k v (field j w fs) = if k == j then field j v fs else field j w (put k v fs)

-- `v if isinstance(v, dict) else {}`
unfoldable pub dict_or_empty : Value → Fields
dict_or_empty (obj fs) = fs
dict_or_empty _ = end

unfoldable pub is_none : Value → Bool
is_none null = true
is_none _ = false

int_beq : ℤ → ℤ → Bool
int_beq (pos m) (pos n) = nat_beq m n
int_beq (negsuc m) (negsuc n) = nat_beq m n
int_beq _ _ = false

float_beq : Float → Float → Bool
float_beq (finite m e) (finite n f) = int_beq m n && int_beq e f
float_beq (infinity a) (infinity b) = a == b
float_beq _ _ = false

datetime_beq : Datetime → Datetime → Bool
datetime_beq (naive s) (naive t) = nat_beq s t
datetime_beq (aware s z) (aware t y) = nat_beq s t
datetime_beq _ _ = false

count_fields : Fields → ℕ
count_fields end = 0
count_fields (field k v fs) = suc (count_fields fs)

truth_number : Bool → ℕ
truth_number true = 1
truth_number false = 0

-- `==`: dicts are compared without regard to the order of their keys, and a truth value is 0 or 1.
-- Floating numbers are equal to floating numbers only; a `finite` is taken in lowest terms.
unfoldable mutual
  unfolding int_beq float_beq datetime_beq count_fields truth_number

  pub value_beq : Value → Value → Bool
  value_beq null null = true
  value_beq (bool a) (bool b) = a == b
  value_beq (bool a) (int n) = int_beq (pos (truth_number a)) n
  value_beq (int n) (bool a) = int_beq n (pos (truth_number a))
  value_beq (int m) (int n) = int_beq m n
  value_beq (real x) (real y) = float_beq x y
  value_beq (str s) (str t) = s == t
  value_beq (datetime d) (datetime e) = datetime_beq d e
  value_beq (arr xs) (arr ys) = items_beq xs ys
  value_beq (obj fs) (obj gs) = nat_beq (count_fields fs) (count_fields gs) && fields_in fs gs
  value_beq _ _ = false

  pub items_beq : Items → Items → Bool
  items_beq nil nil = true
  items_beq (cons v xs) (cons w ys) = value_beq v w && items_beq xs ys
  items_beq _ _ = false

  pub fields_in : Fields → Fields → Bool
  fields_in end gs = true
  fields_in (field k v fs) gs =
      elim (find k gs) [ some w ↦ value_beq v w | none ↦ false ] && fields_in fs gs

zero_float : Float → Bool
zero_float (finite (pos m) e) = nat_beq m 0
zero_float _ = false

-- `bool(v)`
unfoldable pub truthy : Value → Bool
unfolding zero_float
truthy null = false
truthy (bool b) = b
truthy (int (pos n)) = not (nat_beq n 0)
truthy (int (negsuc n)) = true
truthy (real f) = not (zero_float f)
truthy (str s) = not (is_empty s)
truthy (datetime d) = true
truthy (arr nil) = false
truthy (arr (cons v xs)) = true
truthy (obj end) = false
truthy (obj (field k v fs)) = true

-- The instants of UTC's years 1 to 9999; `astimezone` overflows outside them.
abbrev pub first_instant : ℕ
first_instant = 86400000000

abbrev pub last_instant : ℕ
last_instant = 3652060 * 86400000000

-- `d.astimezone(timezone.utc)` of an aware value; none is the overflow, or a naive value.
unfoldable pub utc_instant : Datetime → Option ℕ
utc_instant (naive t) = none
utc_instant (aware t z) = if leb first_instant t && ltb t last_instant then some t else none

-- What the program takes from the interpreter and its standard library and cannot be read here:
-- the printed form of values that are no text, number, truth value or None; the parsers and
-- printers of dates and floating numbers; and SHA-256 of a JSON text.
pub record Runtime : Type 0 where
  -- `str(v)`
  pub repr : Value → String
  -- `datetime.fromisoformat`, `datetime.isoformat`
  pub from_isoformat : String → Option Datetime
  pub isoformat : Datetime → String
  -- `float(text)`, `float(integer)`, `x / 1000`, `abs(x) >= n`
  pub parse_float : String → Option Float
  pub float_of_int : ℤ → Option Float
  pub thousandth : Float → Float
  pub abs_ge : Float → ℕ → Bool
  -- `datetime.fromtimestamp(x, timezone.utc)`
  pub from_timestamp : Float → Option ℕ
  -- `hashlib.sha256(json.dumps(v, sort_keys=True, ensure_ascii=False).encode()).hexdigest()`
  pub sha256_json : Value → String
  -- `hashlib.sha256(text.encode("utf-8")).hexdigest()`
  pub sha256_text : String → String
  -- `strftime` of an instant of UTC
  pub strftime : String → ℕ → String

-- `str(v)` and `f"{v}"`
unfoldable pub show : Runtime → Value → String
unfolding show_ℤ
show rt null = "None"
show rt (bool true) = "True"
show rt (bool false) = "False"
show rt (int n) = show_ℤ n
show rt (str s) = s
show rt v = rt.repr v

-- `d | e`, `d.update(e)`
unfoldable pub merge : Fields → Fields → Fields
unfolding put
merge fs end = fs
merge fs (field k v gs) = merge (put k v fs) gs

-- `a or b`
unfoldable pub or_else : Value → Value → Value
or_else a b = if truthy a then a else b

-- A dict written out: `{k: v, ...}`, its keys different.
unfoldable pub fields : List (String × Value) → Fields
fields [] = end
fields ((k, v) ∷ kvs) = field k v (fields kvs)

-- `d.get(k, default)`
abbrev pub get_or : String → Value → Fields → Value
get_or k otherwise fs = elim (find k fs) [ none ↦ otherwise | some v ↦ v ]
