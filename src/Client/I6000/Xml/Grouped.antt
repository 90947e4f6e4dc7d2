-- ===== src/Client/I6000/Xml/Grouped.antt =====
-- That no child of an XML element is lost.
use integrated_backup_monito.Prelude.{
  String, ◌≡◌, refl, sym, ap, eq_iff, ◌∙◌, Option, none, some, List, [], ◌∷◌, ◌++◌, eq_refl, All,
  append-All, ◌==◌, string_eq, Bool-cases, inl, inr, if◌then◌else◌,
}
use mathlib.Core.List.{append-nil, append_assoc}
use integrated_backup_monito.Value.{
  Value, obj, arr, str, int, real, bool, datetime, null, Fields, end, find, get, dict_or_empty,
  to_items, cons, nil,
}
use integrated_backup_monito.Value.Merge.{find-put}
use integrated_backup_monito.Client.I6000.Xml.{
  Element, element, Elements, child, childless, key_of, local_name, append_item, pushed, add_child,
  add_children, xml_value, xml_to_obj,
}

-- The values of the children that have a key, in their order.
unfoldable pub values_under : String → Elements → List Value
unfolding key_of xml_value
values_under key childless = []
values_under key (child e es) =
    let rest = values_under key es in if key == key_of e then xml_value e ∷ rest else rest

-- One value is itself, more are a list.
abbrev pub grouped : List Value → Option Value
unfolding to_items
grouped [] = none
grouped (v ∷ []) = some v
grouped (v ∷ w ∷ rest) = some (arr (to_items (v ∷ w ∷ rest)))

abbrev pub IsNoList : Value → Type 0
IsNoList (arr items) = ⊥
IsNoList (obj fs) = Unit
IsNoList (str s) = Unit
IsNoList (int n) = Unit
IsNoList (real x) = Unit
IsNoList (bool b) = Unit
IsNoList (datetime d) = Unit
IsNoList null = Unit

-- An element's value is a text or a dict.
xml_value-IsNoList : (e : Element) → IsNoList (xml_value e)
unfolding xml_value
xml_value-IsNoList (element tag text childless) = tt
xml_value-IsNoList (element tag text (child e es)) = tt

append_item-to_items :
    (vs : List Value) (v : Value) → append_item (to_items vs) v ≡ to_items (vs ++ v ∷ [])
unfolding to_items
append_item-to_items [] v = refl
append_item-to_items (w ∷ vs) v = ap (cons w) (append_item-to_items vs v)

pushed-one : (w v : Value) → IsNoList w → pushed (some w) v ≡ arr (cons w (cons v nil))
pushed-one (arr items) v h = absurd h
pushed-one (obj fs) v h = refl
pushed-one (str s) v h = refl
pushed-one (int n) v h = refl
pushed-one (real x) v h = refl
pushed-one (bool b) v h = refl
pushed-one (datetime d) v h = refl
pushed-one null v h = refl

pushed-grouped :
    (vs : List Value) (v : Value)
    → All IsNoList vs
    → some (pushed (grouped vs) v) ≡ grouped (vs ++ v ∷ [])
unfolding grouped to_items
pushed-grouped [] v no_lists = refl
pushed-grouped (w ∷ []) v (first, _) = ap some (pushed-one w v first)
pushed-grouped (w ∷ x ∷ rest) v no_lists =
    ap (λ items. some (arr (cons w (cons x items)))) (append_item-to_items rest v)

-- The loop over the children, begun with the values of those before them.
add_children-grouped :
    (key : String) (es : Elements) (vs : List Value) (before : Fields)
    → All IsNoList vs
    → find key before ≡ grouped vs
    → find key (add_children es before) ≡ grouped (vs ++ values_under key es)
unfolding add_children add_child values_under grouped
add_children-grouped key childless vs before no_lists held = held ∙ ap grouped (sym (append-nil vs))
add_children-grouped key (child e es) vs before no_lists held =
    let v = xml_value e in
    let found = find-put key (key_of e) (pushed (find (key_of e) before) v) before in
    elim (Bool-cases (key == key_of e)) [
      | inl here ↦
          let same = (eq_iff key (key_of e)).0 here in
          rw here (
            add_children-grouped key es (vs ++ v ∷ []) (add_child (key_of e) v before)
              (append-All IsNoList (v ∷ []) (xml_value-IsNoList e, tt) vs no_lists)
              (found
                ∙ (rw here (ap (λ k. some (pushed (find k before) v)) (sym same))
                    ∙ (ap (λ o. some (pushed o v)) held ∙ pushed-grouped vs v no_lists)))
            ∙ ap grouped (append_assoc vs (v ∷ []) (values_under key es)))
      | inr other ↦ rw other (
          add_children-grouped key es vs (add_child (key_of e) v before) no_lists
            (found ∙ rw other held))
    ]

-- An element with children becomes, under its name, a dict that has under every key the values of
-- just the children of that name: none, the only one itself, or the list of them in their order.
pub xml_to_obj-groups :
    (tag : String) (text : Option String) (e : Element) (es : Elements) (key : String)
    → find key (dict_or_empty (get (local_name tag) (xml_to_obj (element tag text (child e es)))))
      ≡ grouped (values_under key (child e es))
unfolding xml_to_obj xml_value get find dict_or_empty key_of grouped
xml_to_obj-groups tag text e es key =
    rw (eq_refl (local_name tag)) (add_children-grouped key (child e es) [] end tt refl)
