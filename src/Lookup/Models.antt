-- ===== src/Lookup/Models.antt =====
-- apps/classifiers/source_networker.py and apps/lookups/networker_action/models.py.
use Prim.Native.Char.{code}
use integrated_backup_monito.Prelude.{
  ℕ, String, ◌<>◌, Bool, true, false, ◌&&◌, not, Option, none, some, List, [], ◌∷◌, ◌==◌, string_eq,
  contains, leb, if◌then◌else◌, any,
}
use integrated_backup_monito.Prelude.Int.{pos}
use integrated_backup_monito.Prelude.Text.{
  strip, lower, is_empty, is_digit, all_chars, show_ℤ, replace_char,
}
use integrated_backup_monito.Value.{
  Float, finite, Datetime, naive, aware, Value, bool, int, real, str, datetime, obj, Fields,
  Runtime, end, field, get, find, dict_or_empty, is_none, utc_instant, show,
}
use integrated_backup_monito.Lookup.Result.{Result, ok, value_error, raise_if, ◌>>=◌, ◌>>◌}

-- source_networker.py, `validate_source_networker`
abbrev pub sources : List String
sources = "core" ∷ "chnl" ∷ "info" ∷ []

unfoldable pub source_text : Value → String
source_text (str s) = lower (strip s)
source_text _ = ""

unfoldable pub validate_source_networker : Runtime → Value → Result String
validate_source_networker rt value =
    let source = source_text value in
    if contains source sources
    then ok source
    else value_error ("unsupported source_networker: " <> show rt value)

-- `re.fullmatch(r"[1-9][0-9]*", text, flags=re.ASCII)`
unfoldable pub is_positive_decimal : String → Bool
unfolding is_digit
is_positive_decimal String.[] = false
is_positive_decimal (String.◌∷◌ c s) = leb 49 (code c) && leb (code c) 57 && all_chars is_digit s

unfoldable pub canonical : String → Option String
canonical text = if is_positive_decimal text then some text else none

-- `positive_id`
unfoldable pub positive_id : Value → Option String
unfolding canonical
positive_id (str s) = canonical (strip s)
positive_id (int n) = canonical (strip (show_ℤ n))
positive_id _ = none

-- `timestamp`: an instant of UTC. Every failure of the source's `try` is the same None.
abbrev then_utc : Option Datetime → Option ℕ
then_utc none = none
then_utc (some d) = utc_instant d

unfoldable pub timestamp : Runtime → Value → Option ℕ
timestamp rt (str s) = then_utc (rt.from_isoformat (replace_char b'Z' "+00:00" s))
timestamp rt (datetime d) = utc_instant d
timestamp rt _ = none

-- `iso`
unfoldable pub iso : Runtime → Option ℕ → Option String
iso rt none = none
iso rt (some t) = some (rt.isoformat (aware t (pos 0)))

-- `api_timestamp`: the call of `float`, its failure none.
unfoldable pub to_float : Runtime → Value → Option Float
to_float rt (str s) = rt.parse_float s
to_float rt (int n) = rt.float_of_int n
to_float rt (real x) = some x
to_float rt _ = none

unfoldable pub is_finite : Float → Bool
is_finite (finite m e) = true
is_finite _ = false

abbrev or_timestamp : Runtime → Value → Option ℕ → Option ℕ
or_timestamp rt value none = timestamp rt value
or_timestamp rt value (some t) = some t

abbrev from_number : Runtime → Value → Option Float → Option ℕ
from_number rt value none = timestamp rt value
from_number rt value (some number) =
    if is_finite number
    then or_timestamp rt value (
        rt.from_timestamp (if rt.abs_ge number 1000000000000 then rt.thousandth number else number))
    else none

unfoldable pub api_timestamp : Runtime → Value → Option ℕ
unfolding to_float is_finite
api_timestamp rt (bool b) = none
api_timestamp rt value = from_number rt value (to_float rt value)

-- `digest`
unfoldable pub digest : Runtime → Value → String
digest rt value = rt.sha256_json value

-- `source_of`
validate_present : Runtime → List Value → Result (List String)
validate_present rt [] = ok []
validate_present rt (v ∷ vs) =
    let rest = validate_present rt vs in
    if is_none v
    then rest
    else (do source ← validate_source_networker rt v; others ← rest; ok (source ∷ others))

-- `values[0]` where the values are one text, as often as it may stand there.
unfoldable pub only_source : List String → Result String
only_source [] = value_error "missing_or_conflicting_source_networker"
only_source (v ∷ vs) =
    if any (λ w. not (v == w)) vs
    then value_error "missing_or_conflicting_source_networker"
    else ok v

unfoldable pub source_of : Runtime → Bool → Fields → Result String
unfolding validate_present only_source
source_of rt raw document = do
  let payload = dict_or_empty (get "payload" document)
  let nested = dict_or_empty (if raw then get "summary" payload else obj payload)
  values ←
      validate_present rt (get "source_networker" document ∷ get "source_networker" nested ∷ [])
  only_source values

-- `unwrap`: the document, and the reference to it.
abbrev reference_of : Fields → Fields
reference_of hit = field "index" (get "_index" hit) (field "id" (get "_id" hit) end)

abbrev as_document : Fields → Value → Result (Fields × Fields)
as_document hit (obj document) = ok (document, reference_of hit)
as_document hit _ = value_error "invalid_source_document"

abbrev or_hit : Fields → Option Value → Value
or_hit hit none = obj hit
or_hit hit (some v) = v

unfoldable pub unwrap : Value → Result (Fields × Fields)
unwrap (obj hit) = as_document hit (or_hit hit (find "_source" hit))
unwrap _ = value_error "invalid_source_document"

pub record Name : Type 0 where
  pub original : String
  pub normalized : String
  pub suffix : Option String

pub record Issue : Type 0 where
  pub reason : String
  pub source : Option String
  pub action_id : Option String
  pub reference : Fields
  pub details : Value

pub record Evidence : Type 0 where
  pub source : String
  pub action_id : String
  pub backup_id : Option String
  pub policy : Name
  pub workflow : Name
  pub group : Name
  pub attributes : List Value
  pub reference : Fields
  pub observed_at : Option ℕ
  pub save_time : Value
  pub completion_time : Value

abbrev pub Candidate : Type 0
Candidate = String × String × String

-- `Evidence.candidate` and `Evidence.original_candidate`
abbrev pub candidate : Evidence → Candidate
candidate e = (e.policy.normalized, e.workflow.normalized, e.group.normalized)

abbrev pub original_candidate : Evidence → Candidate
original_candidate e = (e.policy.original, e.workflow.original, e.group.original)

pub record Coverage : Type 0 where
  pub source : String
  pub action_id : String
  pub start : Option Datetime
  pub stop : Option Datetime
  pub jobs_complete : Bool
  pub backups_complete : Bool
  pub partial : Bool
  pub query_window_gap : Bool
  pub suffix_reviewed : Bool
  pub proof_reference : String

-- `Coverage.__post_init__`. That the flags are truth values, the bounds `datetime`s and the proof a
-- text is given by the fields' types.
unfoldable pub is_aware_or_none : Option Datetime → Bool
is_aware_or_none none = true
is_aware_or_none (some (naive t)) = false
is_aware_or_none (some (aware t z)) = true

abbrev is_missing {ℓ} : {A : Type ℓ} → Option A → Bool
is_missing none = true
is_missing (some a) = false

unfoldable pub make_coverage : Runtime → Coverage → Result Coverage
unfolding is_aware_or_none
make_coverage rt c = do
  _ ← validate_source_networker rt (str c.source)
  raise_if (is_missing (positive_id (str c.action_id))) "invalid_coverage_identity_or_proof"
  raise_if (not (is_aware_or_none c.start && is_aware_or_none c.stop))
      "coverage_bounds_must_be_aware_datetimes"
  ok c

-- `Coverage.complete_for`: all four instants are there, and lie in order.
unfoldable pub in_order : Option Datetime → Option ℕ → Option ℕ → Option Datetime → Bool
in_order (some (aware a y)) (some b) (some c) (some (aware d z)) = leb a b && leb b c && leb c d
in_order _ _ _ _ = false

unfoldable pub complete_for : Coverage → Option ℕ → Option ℕ → Bool
unfolding in_order
complete_for c start stop =
    c.jobs_complete
    && c.backups_complete
    && not c.partial
    && not c.query_window_gap
    && not (is_empty (strip c.proof_reference))
    && in_order c.start start stop c.stop
