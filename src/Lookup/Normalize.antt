-- ===== src/Lookup/Normalize.antt =====
-- apps/lookups/networker_action/normalize.py
use Prim.Native.Char.{Char, code}
use Prim.Native.String.{[], ◌∷◌}
use integrated_backup_monito.Prelude.{
  String, Bool, false, ◌&&◌, not, Option, none, some, nat_beq, if◌then◌else◌,
}
use integrated_backup_monito.Prelude.Text.{
  strip, is_empty, is_digit, is_ascii_space, all_chars, drop_while,
}
use integrated_backup_monito.Value.{Value, str}
use integrated_backup_monito.Lookup.Result.{Result, ok, value_error, raise_if, ◌>>◌}
use integrated_backup_monito.Lookup.Models.{Name}

-- `[0-9]+` at the front: the digits and what follows them.
unfoldable pub take_digits : String → String × String
unfolding is_digit
take_digits [] = ([], [])
take_digits (c ∷ s) =
    let (digits, rest) = take_digits s in if is_digit c then (c ∷ digits, rest) else ([], c ∷ s)

-- `\s*([0-9]+)` at the front.
unfoldable pub spaced_digits : String → String × String
unfolding take_digits drop_while is_ascii_space
spaced_digits s = take_digits (drop_while is_ascii_space s)

-- `\s*([0-9]+)\s*`, the whole text: its digits.
unfoldable pub number_tail : String → Option String
unfolding spaced_digits
number_tail s =
    let (digits, rest) = spaced_digits s in
    if not (is_empty digits) && all_chars is_ascii_space rest then some digits else none

-- `(.*):\s*([0-9]+)\s*`, the whole text. No colon can follow the one that is matched, and `.` takes
-- every character but a line feed.
abbrev extend : Char → String → Option (String × String) → Option (String × String)
extend c s (some (prefix, digits)) = if nat_beq (code c) 10 then none else some (c ∷ prefix, digits)
extend c s none =
    if nat_beq (code c) b':'
    then elim (number_tail s) [ some digits ↦ some ([], digits) | none ↦ none ]
    else none

unfoldable pub split_suffix : String → Option (String × String)
unfolding number_tail
split_suffix [] = none
split_suffix (c ∷ s) = extend c s (split_suffix s)

-- `SUFFIX.fullmatch(text)`: the part before the colon has a character.
abbrev nonempty_prefix : Option (String × String) → Option (String × String)
nonempty_prefix none = none
nonempty_prefix (some ([], digits)) = none
nonempty_prefix (some (c ∷ prefix, digits)) = some (c ∷ prefix, digits)

unfoldable pub match_suffix : String → Option (String × String)
unfolding split_suffix
match_suffix text = nonempty_prefix (split_suffix text)

-- `re.fullmatch(r":\s*[0-9]+", text)`
unfoldable pub is_bare_suffix : String → Bool
unfolding spaced_digits
is_bare_suffix [] = false
is_bare_suffix (c ∷ s) =
    let (digits, rest) = spaced_digits s in
    nat_beq (code c) b':' && not (is_empty digits) && is_empty rest

abbrev named : String → String → Option (String × String) → Result Name
named value text none = ok (record { original = value; normalized = text; suffix = none })
named value text (some (prefix, digits)) =
    let name = strip prefix in
    if is_empty name
    then value_error "empty_name_before_suffix"
    else ok (record { original = value; normalized = name; suffix = some digits })

unfoldable pub normalize_text : String → Bool → Result Name
unfolding is_bare_suffix match_suffix
normalize_text value strip_suffix =
    let text = strip value in
    do
      raise_if (is_empty text) "empty_or_invalid_name"
      raise_if (strip_suffix && is_bare_suffix text) "empty_name_before_suffix"
      named value text (if strip_suffix then match_suffix text else none)

-- `normalize_name`
unfoldable pub normalize_name : Value → Bool → Result Name
unfolding normalize_text
normalize_name (str value) strip_suffix = normalize_text value strip_suffix
normalize_name _ strip_suffix = value_error "empty_or_invalid_name"
