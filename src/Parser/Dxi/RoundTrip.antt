-- ===== src/Parser/Dxi/RoundTrip.antt =====
-- Records that are written as the command line writes them, and read back.
use Prim.Native.Char.{Char, code}
use integrated_backup_monito.Prelude.{
  ℕ, ◌≢◌, String, ◌<>◌, ◌≡◌, Bool, true, false, ◌&&◌, not, List, [], ◌∷◌, ◌++◌, string_eq, All,
  nat_beq,
}
use integrated_backup_monito.Prelude.Dict.{insert}
use integrated_backup_monito.Prelude.Text.{is_empty, is_space, strip, all_chars}
use integrated_backup_monito.Prelude.Text.Lines.{is_line}
use integrated_backup_monito.Parser.Dxi.{Record}

-- A record with the name of its header, its items in their order.
pub record Printed : Type 0 where
  pub name : String
  pub items : Record

abbrev pub header_of : String → String
header_of name = "[" <> (name <> "]")

abbrev pub item_of : String → String → String
item_of key v = key <> (" = " <> v)

abbrev pub item_lines : Record → List String
item_lines [] = []
item_lines ((key, v) ∷ items) = item_of key v ∷ item_lines items

abbrev pub lines_of : List Printed → List String
lines_of [] = []
lines_of (r ∷ rs) = header_of r.name ∷ (item_lines r.items ++ lines_of rs)

-- Each line with its end.
abbrev pub unlines : List String → String
unlines [] = ""
unlines (line ∷ lines) = line <> ("\n" <> unlines lines)

abbrev pub lacks : ℕ → String → Bool
lacks n s = all_chars (λ c. not (nat_beq (code c) n)) s

-- The first character is neither a space nor an opening bracket.
abbrev pub starts_plain : String → Bool
starts_plain s = elim s [
  | String.[] ↦ false
  | String.◌∷◌ c rest ↦ not (is_space c) && not (nat_beq (code c) 91)
]

abbrev pub IsItem : String × String → Type 0
IsItem (key, v) =
    (starts_plain key ≡ true)
    × (lacks 61 key ≡ true)
    × (strip key ≡ key)
    × (strip v ≡ v)
    × (is_line (item_of key v) ≡ true)

-- The dict of a record's items: a key that comes again has its last value.
abbrev pub dict_from : Record → Record → Record
dict_from [] d = d
dict_from ((key, v) ∷ items) d = dict_from items (insert key v d)

abbrev pub IsPrintable : Printed → Type 0
IsPrintable r =
    (is_empty r.name ≡ false)
    × (lacks 93 r.name ≡ true)
    × (is_line (header_of r.name) ≡ true)
    × (r.items ≢ [])
    × All IsItem r.items
    × (dict_from r.items [] ≡ r.items)
