-- ===== src/Client/Snmp/Collected.antt =====
-- What the client collects is texts and rows of texts.
use mathlib.Core.Path.{subst}
use integrated_backup_monito.Prelude.{
  String, ◌≡◌, refl, sym, List, [], ◌∷◌, ◌==◌, string_eq, All, append-All, Bool-cases, inl, inr,
}
use integrated_backup_monito.Prelude.Dict.{Dict}
use integrated_backup_monito.Value.{Value, str, arr, Fields, end, find, get, put, to_items}
use integrated_backup_monito.Value.Merge.{get-put}
use integrated_backup_monito.Parser.Dd.Total.{IsRow, AreRows, IsCollected}
use integrated_backup_monito.Client.Snmp.{
  VarBind, Response, Answer, answered, runtime_error, raise_on_error, instance_from_oid, bind_rows,
  walk_oid, put_binds, collect_gets, row_values, collect_walks, collect_values, ◌>>=◌,
}
use integrated_backup_monito.Client.Snmp.Walks.{all_rows, walk_oid_iff}

abbrev pub Holds : Fields → Type 0
Holds so_far = (key : String) → IsCollected (get key so_far)

put-Holds :
    (name : String) (v : Value) (so_far : Fields)
    → IsCollected v
    → Holds so_far
    → Holds (put name v so_far)
put-Holds name v so_far h held key =
    subst IsCollected (sym (get-put key name v so_far))
      (elim (Bool-cases (key == name)) [ inl here ↦ rw here h | inr other ↦ rw other (held key) ])

bind_rows-AreRows :
    (base_oid : String) (binds : List VarBind) → All IsRow (bind_rows base_oid binds)
unfolding bind_rows find
bind_rows-AreRows base_oid [] = tt
bind_rows-AreRows base_oid (b ∷ binds) =
    ((instance_from_oid base_oid b.oid_text, b.value, refl, refl), bind_rows-AreRows base_oid binds)

all_rows-AreRows : (base_oid : String) (rs : List Response) → All IsRow (all_rows base_oid rs)
unfolding all_rows
all_rows-AreRows base_oid [] = tt
all_rows-AreRows base_oid (r ∷ rs) =
    append-All IsRow (all_rows base_oid rs) (all_rows-AreRows base_oid rs)
      (bind_rows base_oid r.var_binds) (bind_rows-AreRows base_oid r.var_binds)

-- A chain of answers that ends well.
then-answered {ℓ κ} :
    {A : Type ℓ} {B : Type κ} (m : Answer A) (f : A → Answer B) (b : B)
    → (m >>= f) ≡ answered b
    → (a : A) × (m ≡ answered a) × (f a ≡ answered b)
then-answered (answered a) f b h = (a, refl, h)
then-answered (runtime_error text) f b h = absurd cc

put_binds-Holds :
    (name : String) (binds : List VarBind) (so_far : Fields)
    → Holds so_far
    → Holds (put_binds name binds so_far)
unfolding put_binds
put_binds-Holds name [] so_far held = held
put_binds-Holds name (b ∷ binds) so_far held =
    put_binds-Holds name binds (put name (str b.value) so_far)
      (put-Holds name (str b.value) so_far tt held)

module _ (get_cmd : String → Response) (walk_cmd : String → List Response) where
  row_values-AreRows :
      (rows : List Fields) → All IsRow rows → AreRows (to_items (row_values get_cmd walk_cmd rows))
  unfolding to_items
  row_values-AreRows [] h = tt
  row_values-AreRows (row ∷ rows) (first, more) = (first, row_values-AreRows rows more)

  collect_gets-Holds :
      (oids : Dict String String) (so_far final : Fields)
      → Holds so_far
      → collect_gets get_cmd walk_cmd oids so_far ≡ answered final
      → Holds final
  unfolding collect_gets
  collect_gets-Holds [] so_far final held h =
      let same : so_far ≡ final = cc in subst Holds same held
  collect_gets-Holds ((name, oid) ∷ oids) so_far final held h =
      let (checked, e1, e2) = then-answered (raise_on_error (get_cmd oid)) _ final h in
      collect_gets-Holds oids (put_binds name (get_cmd oid).var_binds so_far) final
        (put_binds-Holds name (get_cmd oid).var_binds so_far held) e2

  collect_walks-Holds :
      (oids : Dict String String) (so_far final : Fields)
      → Holds so_far
      → collect_walks get_cmd walk_cmd oids so_far ≡ answered final
      → Holds final
  unfolding collect_walks
  collect_walks-Holds [] so_far final held h =
      let same : so_far ≡ final = cc in subst Holds same held
  collect_walks-Holds ((name, base) ∷ oids) so_far final held h =
      let (rows, e1, e2) = then-answered (walk_oid base (walk_cmd base)) _ final h in
      let all_same = ((walk_oid_iff base (walk_cmd base) rows).0 e1).1 in
      let are_rows = subst (All IsRow) (sym all_same) (all_rows-AreRows base (walk_cmd base)) in
      collect_walks-Holds oids (put name (arr (to_items (row_values get_cmd walk_cmd rows))) so_far)
        final
        (put-Holds name (arr (to_items (row_values get_cmd walk_cmd rows))) so_far
          (row_values-AreRows rows are_rows) held)
        e2

  -- Under every key of what is collected stands a text or rows of texts, or nothing.
  pub collect_values-Holds :
      (oids walk_oids : Dict String String) (raw : Fields)
      → collect_values get_cmd walk_cmd oids walk_oids ≡ answered raw
      → Holds raw
  unfolding collect_values get find
  collect_values-Holds oids walk_oids raw h =
      let (got, e1, e2) = then-answered (collect_gets get_cmd walk_cmd oids end) _ raw h in
      collect_walks-Holds walk_oids got raw (collect_gets-Holds oids end got (λ key. tt) e1) e2
