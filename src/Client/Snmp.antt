-- ===== src/Client/Snmp.antt =====
-- apps/clients/snmp_client.py. What the library answers to a request is a parameter: `Response`.
pub mod Walks
pub mod Collected
mod Tests
use integrated_backup_monito.Prelude.{
  ℕ, zero, suc, String, ◌<>◌, Bool, Option, none, some, List, [], ◌∷◌, ◌++◌, ◌==◌, string_eq,
  nat_beq, if◌then◌else◌,
}
use Prim.Native.Char.{code}
use integrated_backup_monito.Prelude.Int.{ℤ, pos, negsuc}
use integrated_backup_monito.Prelude.Dict.{Dict}
use integrated_backup_monito.Prelude.Text.{drop_while_end, without_prefix}
use integrated_backup_monito.Value.{Value, str, arr, obj, Fields, end, field, put, to_items}

-- `prettyPrint` of both parts of a binding, and `str` of the first.
pub record VarBind : Type 0 where
  pub oid_text : String
  pub value : String
  pub oid_name : String

-- What `get_cmd` returns and `walk_cmd` yields: the text of an error indication and of an error status,
-- where they are true, and `int(error_index)`, none where that raises.
pub record Response : Type 0 where
  pub error_indication : Option String
  pub error_status : Option String
  pub error_index : Option ℤ
  pub var_binds : List VarBind

-- A value, or the message of the `RuntimeError`.
pub data Answer {ℓ} (A : Type ℓ) : Type ℓ where
  answered : A → Answer A
  runtime_error : String → Answer A

infixl 5 ◌>>=◌
abbrev pub ◌>>=◌ {ℓ κ} : {A : Type ℓ} {B : Type κ} → Answer A → (A → Answer B) → Answer B
answered a >>= f = f a
runtime_error text >>= f = runtime_error text

-- `_failing_oid`
unfoldable pub bind_at : ℕ → List VarBind → String
bind_at n [] = "unknown"
bind_at zero (b ∷ binds) = b.oid_name
bind_at (suc n) (b ∷ binds) = bind_at n binds

unfoldable pub failing_oid : Option ℤ → List VarBind → String
unfolding bind_at
failing_oid none var_binds = "unknown"
failing_oid (some (negsuc n)) var_binds = "unknown"
failing_oid (some (pos zero)) var_binds = "unknown"
failing_oid (some (pos (suc n))) var_binds = bind_at n var_binds

-- `_raise_on_error`
abbrev pub status_error : Response → Option String → Answer (Unit {0})
status_error r none = answered tt
status_error r (some text) =
    runtime_error (text <> (" at " <> failing_oid r.error_index r.var_binds))

abbrev pub indication_error : Response → Option String → Answer (Unit {0})
indication_error r (some text) = runtime_error text
indication_error r none = status_error r r.error_status

unfoldable pub raise_on_error : Response → Answer (Unit {0})
unfolding failing_oid
raise_on_error r = indication_error r r.error_indication

-- `_instance_from_oid`; 46 is the code of the point.
unfoldable pub normalized_base : String → String
unfolding drop_while_end
normalized_base base_oid = drop_while_end (λ c. nat_beq (code c) 46) base_oid

abbrev pub below_or : String → Option String → String
below_or oid none = oid
below_or oid (some rest) = rest

unfoldable pub instance_from_oid : String → String → String
unfolding normalized_base without_prefix
instance_from_oid base_oid oid =
    let base = normalized_base base_oid in
    if oid == base then "" else below_or oid (without_prefix (base <> ".") oid)

-- The rows of the bindings of one response
unfoldable pub bind_rows : String → List VarBind → List Fields
unfolding instance_from_oid
bind_rows base_oid [] = []
bind_rows base_oid (b ∷ binds) =
    field "oid" (str b.oid_text) (
      field "instance" (str (instance_from_oid base_oid b.oid_text))
        (field "value" (str b.value) end))
    ∷ bind_rows base_oid binds

-- `_walk_oid`, of the responses that the iterator yields: none of them is asked for after an error.
unfoldable pub walk_oid : String → List Response → Answer (List Fields)
unfolding raise_on_error bind_rows
walk_oid base_oid [] = answered []
walk_oid base_oid (r ∷ responses) = do
  checked ← raise_on_error r
  rows ← walk_oid base_oid responses
  answered (bind_rows base_oid r.var_binds ++ rows)

-- `values[metric_name] = value.prettyPrint()` for each binding
unfoldable pub put_binds : String → List VarBind → Fields → Fields
unfolding put
put_binds metric_name [] so_far = so_far
put_binds metric_name (b ∷ binds) so_far =
    put_binds metric_name binds (put metric_name (str b.value) so_far)

module _ (get_cmd : String → Response) (walk_cmd : String → List Response) where
  unfoldable pub collect_gets : Dict String String → Fields → Answer Fields
  unfolding raise_on_error put_binds
  collect_gets [] so_far = answered so_far
  collect_gets ((metric_name, oid) ∷ oids) so_far = do
    checked ← raise_on_error (get_cmd oid)
    collect_gets oids (put_binds metric_name (get_cmd oid).var_binds so_far)

  abbrev pub row_values : List Fields → List Value
  row_values [] = []
  row_values (row ∷ rows) = obj row ∷ row_values rows

  unfoldable pub collect_walks : Dict String String → Fields → Answer Fields
  unfolding walk_oid put to_items
  collect_walks [] so_far = answered so_far
  collect_walks ((metric_name, base_oid) ∷ oids) so_far = do
    rows ← walk_oid base_oid (walk_cmd base_oid)
    collect_walks oids (put metric_name (arr (to_items (row_values rows))) so_far)

  -- `_collect_values`, of `config.oids` and `config.walk_oids`
  unfoldable pub collect_values : Dict String String → Dict String String → Answer Fields
  unfolding collect_gets collect_walks
  collect_values oids walk_oids = do got ← collect_gets oids end; collect_walks walk_oids got
