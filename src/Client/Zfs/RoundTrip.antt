-- ===== src/Client/Zfs/RoundTrip.antt =====
-- The keys that the client makes, read back by the parser.
use Prim.Native.Char.{code}
use text.Mathlib.TextLemmas.{cons-append, nil-append}
use integrated_backup_monito.Prelude.{
  nat_beq, String, ◌<>◌, ◌≡◌, refl, true, some, List, [], ◌∷◌, ◌++◌, map, string_eq, if◌then◌else◌,
  Bool-cases, inl, inr, sym, distinct_bools,
}
use integrated_backup_monito.Prelude.Text.{is_empty, without_prefix, all_chars, split_once}
use integrated_backup_monito.Value.{Value, str, Fields, field, fields, get, find, Runtime}
use integrated_backup_monito.Derived.{string}
use integrated_backup_monito.Parser.Common.{items}
use integrated_backup_monito.Parser.Zfs.{rows_of}
use integrated_backup_monito.Parser.Zfs.Rows.{
  Row, rows_under, rows_at, placed_rows, normalize_filesystems, normalize_luns, filesystem_row,
  lun_row,
}
use integrated_backup_monito.Parser.Zfs.Keys.{not_slash}
use integrated_backup_monito.Client.Zfs.{place}
use integrated_backup_monito.Prelude.Text.Lines.{without_prefix-append}

split_once-place :
    (pool project : String)
    → all_chars not_slash pool ≡ true
    → split_once b'/' (pool <> ("/" <> project)) ≡ some (pool, project)
unfolding split_once
split_once-place String.[] project h =
    rw (nil-append ("/" <> project), cons-append "/" "" project, nil-append project) refl
split_once-place (String.◌∷◌ c pool) project h = elim (Bool-cases (nat_beq (code c) b'/')) [
  | inl here ↦ absurd (distinct_bools (sym (rw (here, all_chars) at h)))
  | inr further ↦
      let rest : all_chars not_slash pool ≡ true = rw (further, all_chars) at h in
      rw (cons-append c pool ("/" <> project), further, split_once-place pool project rest) refl
]

rows_at-place :
    (row : Row) (payload : Value) (prefix name pool project : String) (quote : String → String)
    → all_chars not_slash pool ≡ true
    → rows_at row payload name (without_prefix prefix (prefix <> place quote pool project))
      ≡ some (rows_of (row pool project) (items payload name))
unfolding rows_at rows_under
rows_at-place row payload prefix name pool project quote h =
    rw (without_prefix-append prefix (place quote pool project), split_once-place pool project h)
      refl

-- The text that an item has itself, or else the one of the key.
abbrev pub own_or : Runtime → String → String → Fields → Value
own_or rt name of_key item =
    str (if is_empty (string rt (get name item)) then of_key else string rt (get name item))

abbrev pub own_place : Runtime → String → String → Fields → Value × Value
own_place rt pool project item = (own_or rt "pool" pool item, own_or rt "project" project item)

-- The pool and the project that a row shows.
abbrev pub place_of : Fields → Value × Value
place_of row = (get "pool" row, get "project" row)

filesystem_row-place :
    (rt : Runtime) (device_name pool project : String) (item : Fields)
    → place_of (filesystem_row rt device_name pool project item) ≡ own_place rt pool project item
unfolding filesystem_row fields get find
filesystem_row-place rt device_name pool project item = refl

lun_row-place :
    (rt : Runtime) (device_name pool project : String) (item : Fields)
    → place_of (lun_row rt device_name pool project item) ≡ own_place rt pool project item
unfolding lun_row fields get find
lun_row-place rt device_name pool project item = refl

map-rows_of :
    (row : Fields → Fields) (own : Fields → Value × Value) (given others : List Fields)
    → ((item : Fields) → place_of (row item) ≡ own item)
    → map place_of (rows_of row given ++ others) ≡ map own given ++ map place_of others
unfolding rows_of
map-rows_of row own [] others h = refl
map-rows_of row own (item ∷ given) others h = rw (h item, map-rows_of row own given others h) refl

-- Where the name of the pool has no "/" and the parser reads the other keys, it reads the file systems that
-- the client stores under the key of a pool and a project too: a row for each, in their order, shows
-- the pool and the project that the item itself has, or else those of the key; so do those of the LUNs.
-- The pools and projects of the other keys' rows follow.
pub normalize-place :
    (rt : Runtime) (quote : String → String) (device_name pool project : String) (payload : Value)
    (rest : Fields) (file_systems luns : List Fields)
    → all_chars not_slash pool ≡ true
    → normalize_filesystems rt rest device_name ≡ some file_systems
    → normalize_luns rt rest device_name ≡ some luns
    → ((rows : List Fields) × (normalize_filesystems rt
            (field ("filesystems:" <> place quote pool project) payload rest)
            device_name
          ≡ some rows)
        × (map place_of rows
            ≡ map (own_place rt pool project) (items payload "filesystems")
              ++ map place_of file_systems))
      × ((rows : List Fields) × (normalize_luns rt
              (field ("luns:" <> place quote pool project) payload rest)
              device_name
            ≡ some rows)
          × (map place_of rows
              ≡ map (own_place rt pool project) (items payload "luns") ++ map place_of luns))
unfolding normalize_filesystems normalize_luns placed_rows
normalize-place rt quote device_name pool project payload rest file_systems luns h before_files
      before_luns =
    let file_row = filesystem_row rt device_name in
    let unit_row = lun_row rt device_name in
    let shares = rows_at-place file_row payload "filesystems:" "filesystems" pool project quote h in
    let units = rows_at-place unit_row payload "luns:" "luns" pool project quote h in
    (
      (
        rows_of (file_row pool project) (items payload "filesystems") ++ file_systems,
        rw (shares, before_files) refl,
        map-rows_of (file_row pool project) (own_place rt pool project)
            (items payload "filesystems") file_systems
            (filesystem_row-place rt device_name pool project),
      ),
      (
        rows_of (unit_row pool project) (items payload "luns") ++ luns,
        rw (units, before_luns) refl,
        map-rows_of (unit_row pool project) (own_place rt pool project) (items payload "luns") luns
            (lun_row-place rt device_name pool project),
      ),
    )
