-- ===== src/Prelude/Text.antt =====
-- The methods of Python's `str` that the program calls, on native texts (lists of characters).
pub mod Case
pub mod Lines
use Prim.Native.Char.{Char, code}
use Prim.Native.String.{String, [], ◌∷◌, ◌++◌ as ◌<>◌, char_at, compare}
use Prim.Native.Nat.{ℕ, zero, suc, ◌/◌, ◌%◌, Ordering}
use mathlib.Core.List.{List}
use text.Mathlib.Text.{◌==◌ as str_eq}
use mathlib.Core.Option.{Option, none, some}
use mathlib.Core.Bool.{Bool, true, false, ◌&&◌, ◌||◌}
use integrated_backup_monito.Prelude.Tests.{ltb, leb, nat_beq, if◌then◌else◌}
use integrated_backup_monito.Prelude.Int.{ℤ, pos, negsuc}

abbrev pub is_empty : String → Bool
is_empty [] = true
is_empty (c ∷ s) = false

-- `str.isspace` of one character: Unicode White_Space and the separators 28 to 31.
unfoldable pub is_space : Char → Bool
is_space c =
    let n = code c in
    (leb 9 n && leb n 13)
    || (leb 28 n && leb n 32)
    || nat_beq n 133
    || nat_beq n 160
    || nat_beq n 5760
    || (leb 8192 n && leb n 8202)
    || nat_beq n 8232
    || nat_beq n 8233
    || nat_beq n 8239
    || nat_beq n 8287
    || nat_beq n 12288

-- `\s` of `re` under `re.ASCII`.
unfoldable pub is_ascii_space : Char → Bool
is_ascii_space c = let n = code c in (leb 9 n && leb n 13) || nat_beq n 32

unfoldable pub is_digit : Char → Bool
is_digit c = let n = code c in leb 48 n && leb n 57

unfoldable pub drop_while : (Char → Bool) → String → String
drop_while test [] = []
drop_while test (c ∷ s) = elim (test c) [ true ↦ drop_while test s | false ↦ c ∷ s ]

-- Without the longest end whose characters pass the test.
abbrev drop_last : Bool → Char → String → String
drop_last passes c [] = if passes then [] else c ∷ []
drop_last passes c (d ∷ s) = c ∷ d ∷ s

unfoldable pub drop_while_end : (Char → Bool) → String → String
drop_while_end test [] = []
drop_while_end test (c ∷ s) = drop_last (test c) c (drop_while_end test s)

unfoldable pub strip : String → String
unfolding is_space drop_while drop_while_end
strip s = drop_while_end is_space (drop_while is_space s)

translate : String → String → Char → Char
translate [] _ c = c
translate (u ∷ us) [] c = c
translate (u ∷ us) (l ∷ ls) c = if nat_beq (code u) (code c) then l else translate us ls c

-- `str.lower`, of ASCII's letters and of the Kelvin sign, which are all that become an ASCII text. The
-- letters of other alphabets stay as they are.
unfoldable pub lower_char : Char → Char
unfolding translate
lower_char = translate "ABCDEFGHIJKLMNOPQRSTUVWXYZK" "abcdefghijklmnopqrstuvwxyzk"

unfoldable pub lower : String → String
unfolding lower_char
lower [] = []
lower (c ∷ s) = lower_char c ∷ lower s

abbrev pub all_chars : (Char → Bool) → String → Bool
all_chars test [] = true
all_chars test (c ∷ s) = elim (test c) [ true ↦ all_chars test s | false ↦ false ]

-- The decimal digits of a number, before `rest`. Each round divides by ten: `n + 1` rounds are enough.
digit : ℕ → String
digit n = char_at "0123456789" n ∷ []

decimal : ℕ → ℕ → String → String
decimal zero n rest = rest
decimal (suc fuel) n rest =
    let here = digit (n % 10) <> rest in
    let more = decimal fuel (n / 10) here in if ltb n 10 then here else more

-- `str` of an integer.
unfoldable pub show_ℕ : ℕ → String
unfolding digit decimal
show_ℕ n = decimal (suc n) n ""

unfoldable pub show_ℤ : ℤ → String
unfolding show_ℕ
show_ℤ (pos n) = show_ℕ n
show_ℤ (negsuc n) = "-" <> show_ℕ (suc n)

-- `str.replace` of a character by a text.
unfoldable pub replace_char : ℕ → String → String → String
replace_char n by [] = []
replace_char n by (c ∷ s) =
    let rest = replace_char n by s in if nat_beq (code c) n then by <> rest else c ∷ rest

-- `s < t`: by the code points.
abbrev pub str_lt : String → String → Bool
str_lt s t = elim (compare s t) [ Ordering.lt ↦ true | _ ↦ false ]

-- `separator.join(parts)`
join_rest : String → List String → String
join_rest separator List.[] = []
join_rest separator (List.◌∷◌ part rest) = separator <> (part <> join_rest separator rest)

unfoldable pub join : String → List String → String
unfolding join_rest
join separator List.[] = []
join separator (List.◌∷◌ part rest) = part <> join_rest separator rest

-- `any(test(c) for c in s)`
abbrev pub any_char : (Char → Bool) → String → Bool
any_char test [] = false
any_char test (c ∷ s) = elim (test c) [ true ↦ true | false ↦ any_char test s ]

-- `s[:n]` by characters, and `len(s) >= n`.
unfoldable pub take_text : ℕ → String → String
take_text zero s = []
take_text (suc n) [] = []
take_text (suc n) (c ∷ s) = c ∷ take_text n s

unfoldable pub has_length : ℕ → String → Bool
has_length zero s = true
has_length (suc n) [] = false
has_length (suc n) (c ∷ s) = has_length n s

-- `s[:-1]` where `s` ends with one of two characters, and nothing otherwise.
abbrev last_step : Char → String → Option String → Option String
last_step c [] rest = if nat_beq (code c) b'Z' || nat_beq (code c) b'z' then some [] else none
last_step c (d ∷ s) none = none
last_step c (d ∷ s) (some kept) = some (c ∷ kept)

unfoldable pub without_z : String → Option String
without_z [] = none
without_z (c ∷ s) = last_step c s (without_z s)

-- `str.upper`, of ASCII's letters.
unfoldable pub upper_char : Char → Char
unfolding translate
upper_char = translate "abcdefghijklmnopqrstuvwxyz" "ABCDEFGHIJKLMNOPQRSTUVWXYZ"

unfoldable pub upper : String → String
unfolding upper_char
upper [] = []
upper (c ∷ s) = upper_char c ∷ upper s

-- `s.split(c)`
abbrev split_here : Bool → Char → List String → List String
split_here true c parts = List.◌∷◌ "" parts
split_here false c List.[] = List.◌∷◌ (c ∷ []) List.[]
split_here false c (List.◌∷◌ part rest) = List.◌∷◌ (c ∷ part) rest

unfoldable pub split : ℕ → String → List String
split n [] = List.◌∷◌ "" List.[]
split n (c ∷ s) = split_here (nat_beq (code c) n) c (split n s)

-- `s[len(p):]` where `s` starts with `p`.
unfoldable pub without_prefix : String → String → Option String
without_prefix [] s = some s
without_prefix (p ∷ ps) [] = none
without_prefix (p ∷ ps) (c ∷ s) =
    let rest = without_prefix ps s in if nat_beq (code p) (code c) then rest else none

-- `s.endswith(p)`
unfoldable pub ends_with : String → String → Bool
ends_with p [] = str_eq p []
ends_with p (c ∷ s) = str_eq p (c ∷ s) || ends_with p s

-- `p in s`
abbrev starts : Option String → Bool
starts none = false
starts (some rest) = true

unfoldable pub has_infix : String → String → Bool
unfolding without_prefix
has_infix p [] = starts (without_prefix p [])
has_infix p (c ∷ s) = starts (without_prefix p (c ∷ s)) || has_infix p s

-- `s.split(c, 1)[0]`
unfoldable pub before_char : ℕ → String → String
before_char n [] = []
before_char n (c ∷ s) = let rest = before_char n s in if nat_beq (code c) n then [] else c ∷ rest

-- `s.startswith(c)` for one character, and `s[0]`
unfoldable pub begins_with : ℕ → String → Bool
begins_with n [] = false
begins_with n (c ∷ s) = nat_beq (code c) n

unfoldable pub first_char : String → String
first_char [] = []
first_char (c ∷ s) = c ∷ []

-- `s.split(c, 1)`, none where the text has no such character
abbrev with_first : Char → Option (String × String) → Option (String × String)
with_first c none = none
with_first c (some (before, after)) = some (c ∷ before, after)

unfoldable pub split_once : ℕ → String → Option (String × String)
split_once n [] = none
split_once n (c ∷ s) =
    let rest = split_once n s in if nat_beq (code c) n then some ([], s) else with_first c rest
