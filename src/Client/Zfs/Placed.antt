-- ===== src/Client/Zfs/Placed.antt =====
-- The keys of the payloads that the ZFS client fetches: those of file systems and of LUNs name a pool and a
-- project, so that the parser takes them.
use mathlib.Core.Path.{subst}
use mathlib.Core.Option.{some-injective}
use integrated_backup_monito.Client.Plan.{select}
use Prim.Native.Char.{Char, code}
use text.Mathlib.TextLemmas.{cons-append, nil-append}
use integrated_backup_monito.Prelude.Chain.{bind-some}
use integrated_backup_monito.Prelude.{
  ℕ, nat_beq, String, ◌<>◌, ◌≡◌, refl, false, none, some, List, [], ◌∷◌, ◌==◌, string_eq, arith,
  contains, Bool-cases, inl, inr,
}
use integrated_backup_monito.Prelude.Dict.{Dict, insert}
use integrated_backup_monito.Prelude.Text.Lines.{without_prefix-append}
use integrated_backup_monito.Prelude.Text.{without_prefix, all_chars}
use integrated_backup_monito.Value.{Value, Fields, end, field, Runtime, get, put, merge, fields}
use integrated_backup_monito.Parser.Common.{items}
use integrated_backup_monito.Parser.Zfs.Keys.{not_slash, lacks_slash}
use integrated_backup_monito.Collector.Collect.{Gathered, result, cancelled, exception, fetch_named}
use integrated_backup_monito.Client.Zfs.{
  named, gather, merge_fetch_result, with_errors, pool_endpoints, project_list_endpoints,
  share_endpoints, inventory_endpoints, fetch_into, errors_key,
}

without_prefix-differs :
    (c d : Char) (p s t : String)
    → nat_beq (code c) (code d) ≡ false
    → without_prefix (String.◌∷◌ c p) (String.◌∷◌ d s <> t) ≡ none
unfolding without_prefix
without_prefix-differs c d p s t h = rw (cons-append d s t, h) refl

has_slash : (s t : String) → all_chars not_slash (s <> ("/" <> t)) ≡ false
has_slash String.[] t = rw (nil-append ("/" <> t), cons-append "/" "" t) refl
has_slash (String.◌∷◌ c s) t = rw (cons-append c s ("/" <> t)) ground (arith, has_slash s t)

-- A key that the parser takes
abbrev pub IsPlaced : String → Type 0
IsPlaced k =
    (lacks_slash (without_prefix "filesystems:" k) ≡ false)
    × (lacks_slash (without_prefix "luns:" k) ≡ false)

filesystems-IsPlaced :
    (pool project : String) → IsPlaced ("filesystems:" <> (pool <> ("/" <> project)))
filesystems-IsPlaced pool project = (
  rw (without_prefix-append "filesystems:" (pool <> ("/" <> project))) (has_slash pool project),
  rw (without_prefix-differs "l" "f" "uns:" "ilesystems:" (pool <> ("/" <> project)) refl) refl,
)

luns-IsPlaced : (pool project : String) → IsPlaced ("luns:" <> (pool <> ("/" <> project)))
luns-IsPlaced pool project = (
  rw (without_prefix-differs "f" "l" "ilesystems:" "uns:" (pool <> ("/" <> project)) refl) refl,
  rw (without_prefix-append "luns:" (pool <> ("/" <> project))) (has_slash pool project),
)

pool-IsPlaced : (s : String) → IsPlaced ("pool:" <> s)
pool-IsPlaced s = (
  rw (without_prefix-differs "f" "p" "ilesystems:" "ool:" s refl) refl,
  rw (without_prefix-differs "l" "p" "uns:" "ool:" s refl) refl,
)

projects-IsPlaced : (s : String) → IsPlaced ("projects:" <> s)
projects-IsPlaced s = (
  rw (without_prefix-differs "f" "p" "ilesystems:" "rojects:" s refl) refl,
  rw (without_prefix-differs "l" "p" "uns:" "rojects:" s refl) refl,
)

project-IsPlaced : (s : String) → IsPlaced ("project:" <> s)
project-IsPlaced s = (
  rw (without_prefix-differs "f" "p" "ilesystems:" "roject:" s refl) refl,
  rw (without_prefix-differs "l" "p" "uns:" "roject:" s refl) refl,
)

abbrev pub AllPlaced {ℓ} : {V : Type ℓ} → Dict String V → Type 0
AllPlaced [] = Unit
AllPlaced ((k, v) ∷ d) = IsPlaced k × AllPlaced d

insert-AllPlaced {ℓ} :
    {V : Type ℓ} (k : String) (v : V) (d : Dict String V)
    → IsPlaced k
    → AllPlaced d
    → AllPlaced (insert k v d)
unfolding insert
insert-AllPlaced k v [] now h = (now, tt)
insert-AllPlaced k v ((j, w) ∷ d) now (here, later) = elim (Bool-cases (k == j)) [
  | inl same ↦ rw same (here, later)
  | inr other ↦ rw other (here, insert-AllPlaced k v d now later)
]

pub select-AllPlaced :
    (names : List String) (d : Dict String String) → AllPlaced d → AllPlaced (select names d)
unfolding select
select-AllPlaced names [] h = tt
select-AllPlaced names ((k, v) ∷ d) (here, later) = elim (Bool-cases (contains k names)) [
  | inl selected ↦ rw selected (here, select-AllPlaced names d later)
  | inr other ↦ rw other (select-AllPlaced names d later)
]

gather-AllPlaced :
    (quote : String → String) (rt : Runtime) (request : ℕ → String → String → Gathered Value)
    (round : ℕ) (endpoints : Dict String String)
    → AllPlaced endpoints
    → AllPlaced (gather quote rt request round endpoints)
unfolding gather
gather-AllPlaced quote rt request round [] h = tt
gather-AllPlaced quote rt request round ((k, e) ∷ endpoints) (here, later) =
    (here, gather-AllPlaced quote rt request round endpoints later)

fetch_named-AllPlaced :
    (gathered : List (String × Gathered Value)) (payloads : Dict String Value)
    (errors : Dict String String) (fetched : Dict String Value × Dict String String)
    → AllPlaced gathered
    → AllPlaced payloads
    → fetch_named gathered (payloads, errors) ≡ some fetched
    → AllPlaced (fetched.0)
unfolding fetch_named
fetch_named-AllPlaced [] payloads errors fetched all before e =
    subst (λ x. AllPlaced x.0) (some-injective (payloads, errors) fetched e) before
fetch_named-AllPlaced ((name, result a) ∷ gathered) payloads errors fetched (here, later) before e =
    fetch_named-AllPlaced gathered (insert name a payloads) errors fetched later
      (insert-AllPlaced name a payloads here before) e
fetch_named-AllPlaced ((name, exception text) ∷ gathered) payloads errors fetched (here, later)
      before e =
    fetch_named-AllPlaced gathered payloads (insert name text errors) fetched later before e
fetch_named-AllPlaced ((name, cancelled) ∷ gathered) payloads errors fetched all before e =
    absurd cc

-- Payloads whose keys the parser takes
abbrev pub ArePlaced : Fields → Type 0
ArePlaced end = Unit
ArePlaced (field k v fs) = IsPlaced k × ArePlaced fs

put-ArePlaced :
    (k : String) (v : Value) (fs : Fields) → IsPlaced k → ArePlaced fs → ArePlaced (put k v fs)
unfolding put
put-ArePlaced k v end now h = (now, tt)
put-ArePlaced k v (field j w fs) now (here, later) = elim (Bool-cases (k == j)) [
  | inl same ↦ rw same (here, later)
  | inr other ↦ rw other (here, put-ArePlaced k v fs now later)
]

merge-ArePlaced :
    (fs : Fields) (d : Dict String Value)
    → ArePlaced fs
    → AllPlaced d
    → ArePlaced (merge fs (fields d))
unfolding merge fields
merge-ArePlaced fs [] h all = h
merge-ArePlaced fs ((k, v) ∷ d) h (here, later) =
    merge-ArePlaced (put k v fs) d (put-ArePlaced k v fs here h) later

errors_key-IsPlaced : IsPlaced errors_key
unfolding without_prefix
errors_key-IsPlaced = (refl, refl)

merge_fetch_result-ArePlaced :
    (payloads : Fields) (fetched : Dict String Value × Dict String String)
    → ArePlaced payloads
    → AllPlaced (fetched.0)
    → ArePlaced (merge_fetch_result payloads fetched)
unfolding merge_fetch_result with_errors
merge_fetch_result-ArePlaced payloads (d, []) h all = merge-ArePlaced payloads d h all
merge_fetch_result-ArePlaced payloads (d, e ∷ es) h all =
    put-ArePlaced errors_key _ (merge payloads (fields d)) errors_key-IsPlaced
      (merge-ArePlaced payloads d h all)

-- One round keeps the payloads placed.
pub fetch_into-ArePlaced :
    (quote : String → String) (rt : Runtime) (request : ℕ → String → String → Gathered Value)
    (round : ℕ) (endpoints : Dict String String) (payloads fetched : Fields)
    → AllPlaced endpoints
    → ArePlaced payloads
    → fetch_into quote rt request round endpoints payloads ≡ some fetched
    → ArePlaced fetched
unfolding fetch_into
fetch_into-ArePlaced quote rt request round endpoints payloads fetched all h e =
    let (noted, gathered, e1) =
      bind-some (fetch_named (gather quote rt request round endpoints) ([], [])) _ fetched e in
    subst ArePlaced (some-injective _ fetched e1) (
      merge_fetch_result-ArePlaced payloads noted h (
        fetch_named-AllPlaced _ [] [] noted (gather-AllPlaced quote rt request round endpoints all)
          tt gathered))

-- The endpoints of each round
pub pool_endpoints-AllPlaced :
    (quote : String → String) (pools : List String) (d : Dict String String)
    → AllPlaced d
    → AllPlaced (pool_endpoints quote pools d)
unfolding pool_endpoints
pool_endpoints-AllPlaced quote [] d h = h
pool_endpoints-AllPlaced quote (pool ∷ pools) d h =
    pool_endpoints-AllPlaced quote pools _ (insert-AllPlaced _ _ d (pool-IsPlaced pool) h)

pub project_list_endpoints-AllPlaced :
    (quote : String → String) (pools : List String) (d : Dict String String)
    → AllPlaced d
    → AllPlaced (project_list_endpoints quote pools d)
unfolding project_list_endpoints
project_list_endpoints-AllPlaced quote [] d h = h
project_list_endpoints-AllPlaced quote (pool ∷ pools) d h =
    project_list_endpoints-AllPlaced quote pools _
      (insert-AllPlaced _ _ d (projects-IsPlaced pool) h)

share_endpoints-AllPlaced :
    (quote : String → String) (pool : String) (projects : List String) (d : Dict String String)
    → AllPlaced d
    → AllPlaced (share_endpoints quote pool projects d)
unfolding share_endpoints
share_endpoints-AllPlaced quote pool [] d h = h
share_endpoints-AllPlaced quote pool (project ∷ projects) d h =
    share_endpoints-AllPlaced quote pool projects _ (
      insert-AllPlaced _ _ _ (luns-IsPlaced pool project) (
        insert-AllPlaced _ _ _ (filesystems-IsPlaced pool project)
          (insert-AllPlaced _ _ d (project-IsPlaced (pool <> ("/" <> project))) h)))

pub inventory_endpoints-AllPlaced :
    (quote : String → String) (rt : Runtime) (payloads : Fields) (pools : List String)
    (d : Dict String String)
    → AllPlaced d
    → AllPlaced (inventory_endpoints quote rt payloads pools d)
unfolding inventory_endpoints
inventory_endpoints-AllPlaced quote rt payloads [] d h = h
inventory_endpoints-AllPlaced quote rt payloads (pool ∷ pools) d h =
    inventory_endpoints-AllPlaced quote rt payloads pools _ (
      share_endpoints-AllPlaced quote pool
        (named rt (items (get ("projects:" <> pool) payloads) "projects")) d h)
