-- ===== src/Parser/Zfs/Tests.antt =====
-- The theorems on the parser of ZFS answers, applied to an answer with two logs and to one whose key lacks
-- the project.
use integrated_backup_monito.Prelude.{◌≡◌, ◌↔◌, refl, true, ◌||◌, none, some, [], ◌∷◌}
use integrated_backup_monito.Prelude.Dict.{or_default}
use integrated_backup_monito.Prelude.Text.{without_prefix, split_once}
use integrated_backup_monito.Value.{Value, str, arr, obj, Fields, end, fields, to_items}
use integrated_backup_monito.Value.Example.{plain}
use integrated_backup_monito.Parser.Zfs.{Arithmetic}
use integrated_backup_monito.Parser.Zfs.Rows.{
  placed_rows, rows_at, rows_under, normalize_filesystems, normalize_luns,
}
use integrated_backup_monito.Parser.Zfs.Payload.{ZfsPayload, parse_zfs_rest_payload}
use integrated_backup_monito.Parser.Zfs.Keys.{has_bad_key, parse_zfs_rest_payload-none_iff}

abbrev first : Arithmetic
first = record { plus = λ x y. x; percent = λ x y. x }

abbrev logs : Value
logs = obj (fields (("logs", arr (to_items (obj end ∷ str "none" ∷ obj end ∷ []))) ∷ []))

abbrev shares : Value
shares =
    obj
      (fields (("filesystems", arr (to_items (obj (fields (("name", str "fs1") ∷ [])) ∷ []))) ∷ []))

abbrev answers : Fields
answers = fields (("alert_logs", logs) ∷ ("filesystems:p0/backup", shares) ∷ [])

abbrev broken : Fields
broken = fields (("luns:p0", obj end) ∷ [])

abbrev nothing : ZfsPayload
nothing = record {
  summary = end;
  pools = [];
  projects = [];
  filesystems = [];
  luns = [];
  alerts = [];
}

abbrev result : ZfsPayload
result = or_default nothing (parse_zfs_rest_payload plain first answers "zfs1")

returned : parse_zfs_rest_payload plain first answers "zfs1" ≡ some result
unfolding parse_zfs_rest_payload normalize_filesystems normalize_luns placed_rows rows_at rows_under
    without_prefix split_once fields to_items
returned = refl

parse_zfs_rest_payload-none_iff_example :
    (parse_zfs_rest_payload plain first broken "zfs1" ≡ none)
    ↔ ((has_bad_key "filesystems:" broken || has_bad_key "luns:" broken) ≡ true)
parse_zfs_rest_payload-none_iff_example = parse_zfs_rest_payload-none_iff plain first broken "zfs1"
