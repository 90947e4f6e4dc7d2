-- ===== src/Client/Zfs.antt =====
-- apps/clients/zfs_rest_client.py, and `endpoint_errors` of apps/clients/rest_client.py. How the request of
-- a name ends, in each of the four rounds of requests, is a parameter, and so is `quote` of urllib.parse.
-- None is the `CancelledError` that passes.
mod Placed
mod Parsed
mod RoundTrip
mod Tests
use integrated_backup_monito.Prelude.{
  ℕ, String, ◌<>◌, Bool, true, false, ◌||◌, Option, none, some, List, [], ◌∷◌, ◌++◌, Eq, ◌==◌,
  string_eq, if◌then◌else◌,
}
use integrated_backup_monito.Prelude.Chain.{◌>>=◌}
use integrated_backup_monito.Prelude.Dict.{Dict, insert}
use integrated_backup_monito.Prelude.Text.{is_empty}
use integrated_backup_monito.Value.{
  Value, str, obj, Fields, end, Runtime, get, put, merge, fields, dict_or_empty,
}
use integrated_backup_monito.Derived.{string}
use integrated_backup_monito.Parser.Common.{items}
use integrated_backup_monito.Client.Plan.{select}
use integrated_backup_monito.Collector.Collect.{Gathered, fetch_named}

abbrev default_endpoints : Dict String String
default_endpoints =
    ("version", "api/system/v1/version")
    ∷ ("pools", "api/storage/v1/pools")
    ∷ ("logs", "api/log/v1/logs")
    ∷ ("alert_logs", "api/log/v1/logs/alert?limit=100")
    ∷ ("fault_logs", "api/log/v1/logs/fault?limit=100")
    ∷ []

abbrev pub configured : Dict String String → Dict String String
configured [] = default_endpoints
configured (e ∷ es) = e ∷ es

abbrev fast_endpoints : List String
fast_endpoints = "version" ∷ "pools" ∷ "logs" ∷ "alert_logs" ∷ "fault_logs" ∷ []

abbrev slow_endpoints : List String
slow_endpoints = "version" ∷ "pools" ∷ []

unfoldable pub zfs_endpoints : Dict String String → Option String → Dict String String
unfolding select
zfs_endpoints endpoints none = configured endpoints
zfs_endpoints endpoints (some class) =
    select (if class == "fast" then fast_endpoints else slow_endpoints) (configured endpoints)

-- `ERRORS_KEY`, `endpoint_errors`
abbrev pub errors_key : String
errors_key = "_endpoint_errors"

unfoldable pub endpoint_errors : Fields → Fields
unfolding get dict_or_empty
endpoint_errors payloads = dict_or_empty (get errors_key payloads)

-- `_merge_fetch_result`, of the payloads and the errors of `fetch_named`. Into no payloads it is what
-- `fetch_named` itself returns.
unfoldable pub texts : Dict String String → List (String × Value)
texts [] = []
texts ((k, s) ∷ d) = (k, str s) ∷ texts d

unfoldable pub with_errors : Dict String String → Fields → Fields
unfolding put merge endpoint_errors fields texts
with_errors [] payloads = payloads
with_errors (e ∷ es) payloads =
    put errors_key (obj (merge (endpoint_errors payloads) (fields (texts (e ∷ es))))) payloads

unfoldable pub merge_fetch_result : Fields → Dict String Value × Dict String String → Fields
unfolding merge fields with_errors
merge_fetch_result payloads (fetched, errors) = with_errors errors (merge payloads (fields fetched))

-- `_pool_names`
unfoldable pub named : Runtime → List Fields → List String
unfolding string get
named rt [] = []
named rt (item ∷ rest) =
    let others = named rt rest in
    let name = string rt (get "name" item) in if is_empty name then others else name ∷ others

unfoldable pub pool_names : Runtime → Fields → List String
unfolding named items get
pool_names rt payloads = named rt (items (get "pools" payloads) "pools")

module _ (quote : String → String) where
  -- The endpoints of `_fetch_pool_details`
  abbrev pool_path : String → String
  pool_path pool = "api/storage/v1/pools/" <> quote pool

  unfoldable pub pool_endpoints : List String → Dict String String → Dict String String
  unfolding insert
  pool_endpoints [] endpoints = endpoints
  pool_endpoints (pool ∷ pools) endpoints =
      pool_endpoints pools (insert ("pool:" <> pool) (pool_path pool) endpoints)

  -- The endpoints of `_fetch_inventory`
  unfoldable pub project_list_endpoints : List String → Dict String String → Dict String String
  unfolding insert
  project_list_endpoints [] endpoints = endpoints
  project_list_endpoints (pool ∷ pools) endpoints =
      project_list_endpoints pools
        (insert ("projects:" <> pool) (pool_path pool <> "/projects") endpoints)

  abbrev pub place : String → String → String
  place pool project = pool <> ("/" <> project)

  unfoldable pub share_endpoints : String → List String → Dict String String → Dict String String
  unfolding insert
  share_endpoints pool [] endpoints = endpoints
  share_endpoints pool (project ∷ projects) endpoints =
      let project_path = pool_path pool <> ("/projects/" <> quote project) in
      share_endpoints pool projects (
        insert ("luns:" <> place pool project) (project_path <> "/luns") (
          insert ("filesystems:" <> place pool project) (project_path <> "/filesystems")
            (insert ("project:" <> place pool project) project_path endpoints)))

  unfoldable pub inventory_endpoints :
      Runtime → Fields → List String → Dict String String → Dict String String
  unfolding share_endpoints named items get
  inventory_endpoints rt payloads [] endpoints = endpoints
  inventory_endpoints rt payloads (pool ∷ pools) endpoints = inventory_endpoints rt payloads pools (
      share_endpoints pool (named rt (items (get ("projects:" <> pool) payloads) "projects"))
        endpoints)

  module _ (rt : Runtime) (request : ℕ → String → String → Gathered Value) where
    unfoldable pub gather : ℕ → Dict String String → List (String × Gathered Value)
    gather round [] = []
    gather round ((name, endpoint) ∷ endpoints) =
        (name, request round name endpoint) ∷ gather round endpoints

    -- One call of `fetch_named`, merged into the payloads
    unfoldable pub fetch_into : ℕ → Dict String String → Fields → Option Fields
    unfolding fetch_named gather merge_fetch_result
    fetch_into round endpoints payloads = do
      fetched ← fetch_named (gather round endpoints) ([], [])
      some (merge_fetch_result payloads fetched)

    unfoldable pub fetch_inventory : Fields → Option Fields
    unfolding fetch_into project_list_endpoints inventory_endpoints pool_names
    fetch_inventory payloads = do
      listed ← fetch_into 2 (project_list_endpoints (pool_names rt payloads) []) payloads
      fetch_into 3 (inventory_endpoints rt listed (pool_names rt listed) []) listed

    abbrev pub takes_inventory : Option String → Bool
    takes_inventory none = true
    takes_inventory (some class) = class == "slow"

    -- `fetch_payloads`
    unfoldable pub zfs_fetch_payloads : Dict String String → Option String → Option Fields
    unfolding fetch_into zfs_endpoints pool_endpoints pool_names fetch_inventory
    zfs_fetch_payloads endpoints class = do
      payloads ← fetch_into 0 (zfs_endpoints endpoints class) end
      detailed ← fetch_into 1 (pool_endpoints (pool_names rt payloads) []) payloads
      if takes_inventory class then fetch_inventory detailed else some detailed
