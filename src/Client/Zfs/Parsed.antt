-- ===== src/Client/Zfs/Parsed.antt =====
-- The parser of ZFS answers takes what the client fetches.
use mathlib.Core.Path.{subst}
use mathlib.Core.Option.{some-injective}
use integrated_backup_monito.Prelude.Chain.{bind-some}
use integrated_backup_monito.Prelude.{
  ℕ, String, ◌≡◌, refl, Bool, true, false, ◌||◌, Option, none, some, [], string_eq, Option-cases,
  distinct_bools, sym, inl, inr, if◌then◌else◌,
}
use integrated_backup_monito.Prelude.Dict.{Dict}
use integrated_backup_monito.Value.{Value, Fields, end, field, Runtime}
use integrated_backup_monito.Collector.Collect.{Gathered}
use integrated_backup_monito.Parser.Zfs.{Arithmetic}
use integrated_backup_monito.Parser.Zfs.Payload.{ZfsPayload, parse_zfs_rest_payload}
use integrated_backup_monito.Parser.Zfs.Keys.{has_bad_key, parse_zfs_rest_payload-none_iff}
use integrated_backup_monito.Client.Zfs.{
  configured, zfs_endpoints, pool_names, pool_endpoints, project_list_endpoints,
  inventory_endpoints, fetch_into, fetch_inventory, takes_inventory, zfs_fetch_payloads,
}
use integrated_backup_monito.Client.Zfs.Placed.{
  AllPlaced, ArePlaced, select-AllPlaced, fetch_into-ArePlaced, pool_endpoints-AllPlaced,
  project_list_endpoints-AllPlaced, inventory_endpoints-AllPlaced,
}

zfs_endpoints-AllPlaced :
    (endpoints : Dict String String) (class : Option String)
    → AllPlaced (configured endpoints)
    → AllPlaced (zfs_endpoints endpoints class)
unfolding zfs_endpoints
zfs_endpoints-AllPlaced endpoints none h = h
zfs_endpoints-AllPlaced endpoints (some class) h = select-AllPlaced _ (configured endpoints) h

ArePlaced-has_bad_key :
    (payloads : Fields)
    → ArePlaced payloads
    → (has_bad_key "filesystems:" payloads ≡ false) × (has_bad_key "luns:" payloads ≡ false)
ArePlaced-has_bad_key end h = (refl, refl)
ArePlaced-has_bad_key (field k v fs) ((a, b), later) =
    let (c, d) = ArePlaced-has_bad_key fs later in (rw (a, c) refl, rw (b, d) refl)

module _ (quote : String → String) (rt : Runtime)
    (request : ℕ → String → String → Gathered Value) where
  fetch_inventory-ArePlaced :
      (payloads fetched : Fields)
      → ArePlaced payloads
      → fetch_inventory quote rt request payloads ≡ some fetched
      → ArePlaced fetched
  unfolding fetch_inventory
  fetch_inventory-ArePlaced payloads fetched h e =
      let lists = project_list_endpoints quote (pool_names rt payloads) [] in
      let (listed, e1, e2) = bind-some (fetch_into quote rt request 2 lists payloads) _ fetched e in
      let after =
        fetch_into-ArePlaced quote rt request 2 lists payloads listed
          (project_list_endpoints-AllPlaced quote (pool_names rt payloads) [] tt) h e1 in
      fetch_into-ArePlaced quote rt request 3
        (inventory_endpoints quote rt listed (pool_names rt listed) []) listed fetched
        (inventory_endpoints-AllPlaced quote rt listed (pool_names rt listed) [] tt) after e2

  last_rounds :
      (takes : Bool) (payloads fetched : Fields)
      → ArePlaced payloads
      → (if takes then fetch_inventory quote rt request payloads else some payloads) ≡ some fetched
      → ArePlaced fetched
  last_rounds true payloads fetched h e = fetch_inventory-ArePlaced payloads fetched h e
  last_rounds false payloads fetched h e = subst ArePlaced (some-injective payloads fetched e) h

  zfs_fetch_payloads-ArePlaced :
      (endpoints : Dict String String) (class : Option String) (fetched : Fields)
      → AllPlaced (configured endpoints)
      → zfs_fetch_payloads quote rt request endpoints class ≡ some fetched
      → ArePlaced fetched
  unfolding zfs_fetch_payloads
  zfs_fetch_payloads-ArePlaced endpoints class fetched all e =
      let (payloads, e1, e2) =
        bind-some (fetch_into quote rt request 0 (zfs_endpoints endpoints class) end) _ fetched e in
      let pools = pool_endpoints quote (pool_names rt payloads) [] in
      let (detailed, e3, e4) =
        bind-some (fetch_into quote rt request 1 pools payloads) _ fetched e2 in
      let first =
        fetch_into-ArePlaced quote rt request 0 (zfs_endpoints endpoints class) end payloads
          (zfs_endpoints-AllPlaced endpoints class all) tt e1 in
      let second =
        fetch_into-ArePlaced quote rt request 1 pools payloads detailed
          (pool_endpoints-AllPlaced quote (pool_names rt payloads) [] tt) first e3 in
      last_rounds (takes_inventory quote rt request class) detailed fetched second e4

-- Where no configured endpoint has a name that begins with "filesystems:" or "luns:" and has no "/" after
-- it, the parser takes whatever payloads the client fetches, however its requests end, as long as none is
-- cancelled.
pub zfs_fetch_payloads-parses :
    (quote : String → String) (rt : Runtime) (request : ℕ → String → String → Gathered Value)
    (a : Arithmetic) (name : String) (endpoints : Dict String String) (class : Option String)
    (fetched : Fields)
    → AllPlaced (configured endpoints)
    → zfs_fetch_payloads quote rt request endpoints class ≡ some fetched
    → (parsed : ZfsPayload) × (parse_zfs_rest_payload rt a fetched name ≡ some parsed)
zfs_fetch_payloads-parses quote rt request a name endpoints class fetched all e =
    let (shares, luns) =
      ArePlaced-has_bad_key fetched
        (zfs_fetch_payloads-ArePlaced quote rt request endpoints class fetched all e) in
    elim (Option-cases (parse_zfs_rest_payload rt a fetched name)) [
      | inr parsed ↦ parsed
      | inl raised ↦
          let bad : (false || false) ≡ true =
            rw (shares, luns) at ((parse_zfs_rest_payload-none_iff rt a fetched name).0 raised) in
          absurd (distinct_bools (sym bad))
    ]
