-- ===== src/Parser/Networker.antt =====
-- apps/parsers/networker_rest_parser.py: the records of NetWorker's answers.
pub mod Records
pub mod Counter
pub mod Summary
pub mod Monthly
pub mod Payload
pub mod Group
mod Tests
use integrated_backup_monito.Prelude.Chain.{◌>>=◌}
use integrated_backup_monito.Prelude.{
  ℕ, suc, ◌*◌, ◌^◌, String, Bool, true, false, ◌&&◌, ◌||◌, not, Option, none, some, List, [], ◌∷◌,
  ◌==◌, string_eq, nat_eq, contains, length, if◌then◌else◌,
}
use integrated_backup_monito.Prelude.Int.{ℤ, pos}
use integrated_backup_monito.Prelude.Text.{
  strip, lower, is_empty, has_infix, before_char, begins_with, first_char,
}
use integrated_backup_monito.Prelude.Dict.{Dict, lookup, insert}
use integrated_backup_monito.Value.{
  Float, Value, null, int, str, arr, obj, Items, nil, cons, Fields, Runtime, get, truthy, show,
}
use integrated_backup_monito.Derived.{string}
use integrated_backup_monito.Parser.Common.{Platform, as_list, to_number, text_or}

-- `_job_status`
abbrev running_words : List String
running_words = "running" ∷ "active" ∷ "queued" ∷ "pending" ∷ []

abbrev canceled_words : List String
canceled_words = "canceled" ∷ "cancelled" ∷ "aborted" ∷ []

abbrev success_words : List String
success_words = "completed" ∷ "succeeded" ∷ "success" ∷ []

abbrev failed_words : List String
failed_words = "failed" ∷ "failure" ∷ []

abbrev is_zero : ℤ → Bool
is_zero (pos ℕ.zero) = true
is_zero _ = false

abbrev by_exit_code : Option ℤ → String → String
by_exit_code (some code) otherwise = if is_zero code then "success" else "failed"
by_exit_code none otherwise = otherwise

unfoldable pub job_status : String → String → Option ℤ → String
unfolding lower
job_status completion_status state exit_code =
    let completion = lower completion_status in
    let normalized_state = lower state in
    if contains completion running_words
    then "running"
    else if contains completion canceled_words
    then "canceled"
    else if contains completion success_words
    then "success"
    else if contains completion failed_words
    then "failed"
    else if contains normalized_state running_words
    then "running"
    else if contains normalized_state canceled_words
    then "canceled"
    else if contains normalized_state failed_words
    then "failed"
    else by_exit_code exit_code
        (if contains normalized_state success_words then "success" else "unknown")

-- `_protection_group`
abbrev pub marks : List String → ℕ
marks [] = 0
marks (token ∷ tokens) = let rest = marks tokens in if token == "-g" then suc rest else rest

-- The token after the first "-g"
abbrev pub first_of : List String → Option String
first_of [] = none
first_of (token ∷ tokens) = some token

abbrev pub after_mark : List String → Option String
after_mark [] = none
after_mark (token ∷ tokens) =
    let rest = after_mark tokens in if token == "-g" then first_of tokens else rest

abbrev pub proper_group : String → String
proper_group value = if not (is_empty value) && not (begins_with b'-' value) then value else ""

abbrev pub stripped_group : Option String → String
stripped_group none = ""
stripped_group (some token) = proper_group (strip token)

abbrev pub group_of : Option (List String) → String
group_of none = ""
group_of (some tokens) = if (marks tokens) == 1 then stripped_group (after_mark tokens) else ""

unfoldable pub protection_group : Platform → Value → String
unfolding strip begins_with
protection_group p (str command) =
    if is_empty (strip command) then "" else group_of (p.shell_tokens command)
protection_group p _ = ""

-- `_size_bytes`: none outside is the exception of `int` at a number that is infinite or none.
unfoldable pub multiplier : String → Option ℕ
multiplier unit =
    if unit == "" || unit == "byte" || unit == "bytes"
    then some 1
    else if unit == "kb"
    then some 1000
    else if unit == "kib"
    then some 1024
    else if unit == "mb"
    then some 1000000
    else if unit == "mib"
    then some 1048576
    else if unit == "gb"
    then some 1000000000
    else if unit == "gib"
    then some 1073741824
    else if unit == "tb"
    then some 1000000000000
    else if unit == "tib"
    then some 1099511627776
    else none

abbrev some_size : Option ℤ → Option (Option ℤ)
some_size none = none
some_size (some n) = some (some n)

abbrev scaled_size : Platform → Option Float → Option ℕ → Option (Option ℤ)
scaled_size p (some number) (some n) = some_size (p.scaled number n)
scaled_size p _ _ = some none

unfoldable pub size_bytes : Runtime → Platform → Value → Option (Option ℤ)
unfolding string lower get multiplier to_number
size_bytes rt p (obj value) =
    scaled_size p (to_number rt (get "value" value))
      (multiplier (lower (string rt (get "unit" value))))
size_bytes rt p v = scaled_size p (to_number rt v) (multiplier "")

-- `_resource_id`
abbrev id_of : Runtime → Value → String
unfolding string get
id_of rt (obj resource) = string rt (get "id" resource)
id_of rt v = string rt v

unfoldable pub resource_id : Runtime → Fields → String
unfolding string get id_of
resource_id rt item = id_of rt (get "resourceId" item)

-- `_strip_policy_suffix`
unfoldable pub strip_policy_suffix : String → String
unfolding strip before_char
strip_policy_suffix value = strip (before_char b':' value)

-- `_os_family`
unfoldable pub os_family : String → String
unfolding lower has_infix
os_family value =
    let normalized = lower value in
    if has_infix "aix" normalized
    then "AIX"
    else if has_infix "linux" normalized
        || has_infix "rhel" normalized
        || has_infix "sles" normalized
    then "Linux"
    else if has_infix "win" normalized
    then "Windows"
    else if is_empty value
    then "Unknown"
    else "Other"

-- `_normalize_client_state`
unfoldable pub normalize_client_state : Runtime → Value → String
unfolding string lower
normalize_client_state rt value =
    let normalized = lower (string rt value) in
    if contains normalized ("enabled" ∷ "active" ∷ "online" ∷ [])
    then "enabled"
    else if contains normalized ("disabled" ∷ "inactive" ∷ "offline" ∷ [])
    then "disabled"
    else text_or normalized "unknown"

-- `_attributes`: the first of the values, and a falsy one for the empty text. A value that is no list and
-- no text cannot be asked for its first.
abbrev first_item : Items → Option Value
first_item nil = some (str "")
first_item (cons v items) = some v

abbrev first_value : Value → Option Value
unfolding truthy first_char
first_value (arr items) = first_item items
first_value (str s) = some (str (first_char s))
first_value v = if truthy v then none else some (str "")

abbrev add_attribute :
    Runtime → Fields → Dict String String → Option Value → Option (Dict String String)
unfolding insert string get
add_attribute rt item result none = none
add_attribute rt item result (some v) =
    some (insert (string rt (get "key" item)) (string rt v) result)

unfoldable pub attributes_of : Runtime → Items → Dict String String → Option (Dict String String)
unfolding get add_attribute first_value
attributes_of rt nil result = some result
attributes_of rt (cons (obj item) rest) result =
    add_attribute rt item result (first_value (get "values" item)) >>= attributes_of rt rest
attributes_of rt (cons _ rest) result = attributes_of rt rest result

unfoldable pub attributes : Runtime → Value → Option (Dict String String)
unfolding as_list attributes_of
attributes rt value = attributes_of rt (as_list value) []
