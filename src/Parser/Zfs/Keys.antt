-- ===== src/Parser/Zfs/Keys.antt =====
-- When the parser of ZFS answers raises.
use Prim.Native.Char.{Char, code}
use integrated_backup_monito.Prelude.{
  nat_beq, String, ◌≡◌, ◌↔◌, refl, Bool, true, false, ◌||◌, not, ◌⊎◌, Option, none, some, List, [],
  ◌++◌, Bool-cases, inl, inr,
}
use integrated_backup_monito.Prelude.Text.{without_prefix, split_once, all_chars}
use integrated_backup_monito.Value.{Value, Fields, end, field, Runtime, get}
use integrated_backup_monito.Parser.Common.{items}
use integrated_backup_monito.Parser.Zfs.{Arithmetic, first_mapping, rows_of}
use integrated_backup_monito.Parser.Zfs.Rows.{
  Row, rows_under, rows_at, placed_rows, normalize_filesystems, normalize_luns, filesystem_row,
  lun_row,
}
use integrated_backup_monito.Parser.Zfs.Payload.{device_of, parse_zfs_rest_payload}

abbrev pub not_slash : Char → Bool
not_slash c = not (nat_beq (code c) b'/')

-- A key with the prefix has no "/" after it.
abbrev pub lacks_slash : Option String → Bool
lacks_slash none = false
lacks_slash (some place) = all_chars not_slash place

abbrev pub has_bad_key : String → Fields → Bool
has_bad_key prefix end = false
has_bad_key prefix (field key payload rest) =
    lacks_slash (without_prefix prefix key) || has_bad_key prefix rest

split_once-slash :
    (s : String)
    → ((all_chars not_slash s ≡ false) × (ab : String × String) × (split_once b'/' s ≡ some ab))
      ⊎ ((all_chars not_slash s ≡ true) × (split_once b'/' s ≡ none))
unfolding split_once
split_once-slash String.[] = inr (refl, refl)
split_once-slash (String.◌∷◌ c s) = elim (Bool-cases (nat_beq (code c) b'/')) [
  | inl here ↦ inl (rw (here, all_chars) refl, ("", s), rw here refl)
  | inr further ↦ elim (split_once-slash s) [
    | inl (some_slash, (before, after), parts) ↦
        inl (
          rw (further, all_chars) some_slash,
          (String.◌∷◌ c before, after),
          rw (further, parts) refl,
        )
    | inr (no_slash, whole) ↦ inr (rw (further, all_chars) no_slash, rw (further, whole) refl)
  ]
]

-- The rows of one key
rows_at-cases :
    (row : Row) (payload : Value) (name : String) (place : Option String)
    → ((lacks_slash place ≡ false)
        × (rows : List Fields) × (rows_at row payload name place ≡ some rows))
      ⊎ ((lacks_slash place ≡ true) × (rows_at row payload name place ≡ none))
unfolding rows_at rows_under
rows_at-cases row payload name none = inl (refl, [], refl)
rows_at-cases row payload name (some place) = elim (split_once-slash place) [
  | inl (some_slash, (pool, project), parts) ↦
      inl (some_slash, rows_of (row pool project) (items payload name), rw parts refl)
  | inr (no_slash, whole) ↦ inr (no_slash, rw whole refl)
]

placed_rows-cases :
    (row : Row) (prefix name : String) (payloads : Fields)
    → ((has_bad_key prefix payloads ≡ false)
        × (rows : List Fields) × (placed_rows row prefix name payloads ≡ some rows))
      ⊎ ((has_bad_key prefix payloads ≡ true) × (placed_rows row prefix name payloads ≡ none))
unfolding placed_rows
placed_rows-cases row prefix name end = inl (refl, [], refl)
placed_rows-cases row prefix name (field key payload rest) =
    elim (rows_at-cases row payload name (without_prefix prefix key)) [
      | inr (bad, raised) ↦ inr (rw bad refl, rw raised refl)
      | inl (good, here, found) ↦ elim (placed_rows-cases row prefix name rest) [
        | inr (bad, raised) ↦ inr (rw (good, bad) refl, rw (found, raised) refl)
        | inl (others_good, others, later) ↦
            inl (rw (good, others_good) refl, here ++ others, rw (found, later) refl)
      ]
    ]

-- The parser of ZFS answers raises exactly if among the keys of the answers is one that begins with
-- "filesystems:" or with "luns:" and has no "/" after that.
pub parse_zfs_rest_payload-none_iff :
    (rt : Runtime) (a : Arithmetic) (payloads : Fields) (fallback_name : String)
    → (parse_zfs_rest_payload rt a payloads fallback_name ≡ none)
      ↔ ((has_bad_key "filesystems:" payloads || has_bad_key "luns:" payloads) ≡ true)
unfolding parse_zfs_rest_payload normalize_filesystems normalize_luns
parse_zfs_rest_payload-none_iff rt a payloads fallback_name =
    let device_name =
      device_of rt (first_mapping (get "version" payloads) "version") fallback_name in
    elim (placed_rows-cases (filesystem_row rt device_name) "filesystems:" "filesystems" payloads) [
      | inr (bad, raised) ↦ rw (bad, raised) (λ e. refl, λ e. refl)
      | inl (good, filesystems, found) ↦
          elim (placed_rows-cases (lun_row rt device_name) "luns:" "luns" payloads) [
            | inr (bad, raised) ↦ rw (good, bad, found, raised) (λ e. refl, λ e. refl)
            | inl (others_good, luns, later) ↦
                rw (good, others_good, found, later) (λ e. absurd cc, λ e. absurd cc)
          ]
    ]
