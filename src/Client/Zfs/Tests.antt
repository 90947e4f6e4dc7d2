-- ===== src/Client/Zfs/Tests.antt =====
-- What the ZFS client fetches of a device with one pool and one project, whose other requests fail.
use integrated_backup_monito.Prelude.{◌<>◌}
use integrated_backup_monito.Value.{field}
use integrated_backup_monito.Prelude.{
  ℕ, String, ◌≡◌, refl, some, none, List, [], ◌∷◌, ◌++◌, map, ◌==◌, string_eq, if◌then◌else◌,
}
use integrated_backup_monito.Prelude.Dict.{Dict, insert, or_default}
use integrated_backup_monito.Prelude.Text.{
  without_prefix, strip, drop_while, drop_while_end, is_space,
}
use integrated_backup_monito.Value.{
  Value, str, arr, obj, Fields, end, fields, to_items, get, find, put, merge, show,
}
use integrated_backup_monito.Value.Example.{plain}
use integrated_backup_monito.Derived.{string}
use integrated_backup_monito.Parser.Common.{items, dicts}
use integrated_backup_monito.Parser.Zfs.{Arithmetic}
use integrated_backup_monito.Parser.Zfs.Payload.{ZfsPayload, parse_zfs_rest_payload}
use integrated_backup_monito.Collector.Collect.{Gathered, result, exception, fetch_named}
use integrated_backup_monito.Client.Plan.{select}
use integrated_backup_monito.Client.Zfs.{
  place, zfs_endpoints, merge_fetch_result, with_errors, texts, endpoint_errors, named, pool_names,
  pool_endpoints, project_list_endpoints, share_endpoints, inventory_endpoints, gather, fetch_into,
  fetch_inventory, zfs_fetch_payloads,
}
use integrated_backup_monito.Client.Zfs.Placed.{AllPlaced}
use integrated_backup_monito.Parser.Zfs.Rows.{placed_rows, normalize_filesystems, normalize_luns}
use integrated_backup_monito.Client.Zfs.RoundTrip.{own_place, place_of, normalize-place}
use integrated_backup_monito.Client.Zfs.Parsed.{zfs_fetch_payloads-parses}

abbrev listed : String → String → Value
listed key name =
    obj (fields ((key, arr (to_items (obj (fields (("name", str name) ∷ [])) ∷ []))) ∷ []))

abbrev replies : ℕ → String → String → Gathered Value
replies round name endpoint =
    if name == "pools"
    then result (listed "pools" "p0")
    else if name == "projects:p0"
    then result (listed "projects" "db")
    else if name == "filesystems:p0/db"
    then result (listed "filesystems" "fs1")
    else exception "timeout"

abbrev same_text : String → String
same_text s = s

abbrev only_pools : Dict String String
only_pools = ("pools", "api/storage/v1/pools") ∷ []

abbrev first : Arithmetic
first = record { plus = λ x y. x; percent = λ x y. x }

abbrev fetched : Fields
fetched = or_default end (zfs_fetch_payloads same_text plain replies only_pools none)

returned : zfs_fetch_payloads same_text plain replies only_pools none ≡ some fetched
unfolding zfs_fetch_payloads zfs_endpoints select merge_fetch_result with_errors texts
    endpoint_errors named pool_names pool_endpoints project_list_endpoints share_endpoints
    inventory_endpoints gather fetch_into fetch_inventory fetch_named insert get find put merge
    fields to_items items dicts string strip drop_while drop_while_end is_space show
returned = refl

pools-AllPlaced : AllPlaced only_pools
unfolding without_prefix
pools-AllPlaced = ((refl, refl), tt)

zfs_fetch_payloads-parses_example :
    (parsed : ZfsPayload) × (parse_zfs_rest_payload plain first fetched "zfs1" ≡ some parsed)
zfs_fetch_payloads-parses_example =
    zfs_fetch_payloads-parses same_text plain replies first "zfs1" only_pools none fetched
      pools-AllPlaced returned

abbrev shares : Value
shares = listed "filesystems" "fs1"

no_shares : normalize_filesystems plain end "zfs1" ≡ some []
unfolding normalize_filesystems placed_rows
no_shares = refl

no_luns : normalize_luns plain end "zfs1" ≡ some []
unfolding normalize_luns placed_rows
no_luns = refl

normalize-place_example :
    ((rows : List Fields) × (normalize_filesystems plain
          (field ("filesystems:" <> place same_text "p0" "db") shares end)
          "zfs1"
        ≡ some rows)
      × (map place_of rows
          ≡ map (own_place plain "p0" "db") (items shares "filesystems") ++ map place_of []))
    × ((rows : List Fields) × (normalize_luns plain
            (field ("luns:" <> place same_text "p0" "db") shares end)
            "zfs1"
          ≡ some rows)
        × (map place_of rows
            ≡ map (own_place plain "p0" "db") (items shares "luns") ++ map place_of []))
normalize-place_example =
    normalize-place plain same_text "zfs1" "p0" "db" shares end [] [] refl no_shares no_luns
