-- ===== src/Parser/I6000/Found.antt =====
-- What `_find_values` finds: each value that stands under the key, at any depth, and nothing else.
use integrated_backup_monito.Prelude.{
  String, ◌≡◌, refl, true, ◌⊎◌, List, [], ◌∷◌, ◌++◌, Bool-cases, inl, inr,
}
use integrated_backup_monito.Value.{
  Value, null, bool, int, real, str, datetime, arr, obj, Items, nil, cons, Fields, end, field,
  elements,
}
use integrated_backup_monito.Parser.Common.{as_list}
use integrated_backup_monito.Parser.I6000.{
  same_key, values_at, find_values, find_in_items, find_in_fields,
}

abbrev pub Among : Value → List Value → Type 0
Among w [] = ⊥
Among w (v ∷ vs) = (w ≡ v) ⊎ Among w vs

-- An item of a dict
pub data ItemOf (k : String) (v : Value) : Fields → Type 0 where
  first_item : (fs : Fields) → ItemOf k v (field k v fs)
  later_item : (j : String) (u : Value) (fs : Fields) → ItemOf k v fs → ItemOf k v (field j u fs)

-- A value that stands in another at any depth, or is it.
pub data Under (w : Value) : Value → Type 0 where
  itself : Under w w
  in_list : (items : Items) (v : Value) → Among v (elements items) → Under w v → Under w (arr items)
  in_dict : (fs : Fields) (k : String) (v : Value) → ItemOf k v fs → Under w v → Under w (obj fs)

-- A dict under the value has an item with the key, whatever the case of its letters, and the item's value
-- is w or is a list with w.
abbrev pub Holds : Value → String → Value → Type 0
Holds payload key w =
    (fs : Fields) × (k : String) × (v : Value) × Under (obj fs) payload
    × ItemOf k v fs
    × (same_key k key ≡ true)
    × Among w (elements (as_list v))

split : (w : Value) (xs ys : List Value) → Among w (xs ++ ys) → Among w xs ⊎ Among w ys
split w [] ys h = inr h
split w (x ∷ xs) ys (inl here) = inl (inl here)
split w (x ∷ xs) ys (inr later) = elim (split w xs ys later) [
  | inl front ↦ inl (inr front)
  | inr back ↦ inr back
]

-- What is found at an item itself
at_item :
    (key k : String) (v w : Value)
    → Among w (values_at (same_key k key) v)
    → (same_key k key ≡ true) × Among w (elements (as_list v))
unfolding values_at
at_item key k v w h = elim (Bool-cases (same_key k key)) [
  | inl here ↦ (here, rw here at h)
  | inr other ↦ absurd (rw other at h)
]

under_list :
    (key : String) (items : Items) (v w : Value)
    → Among v (elements items)
    → Holds v key w
    → Holds (arr items) key w
under_list key items v w m (fs, k, u, under, item, same, found) =
    (fs, k, u, in_list items v m under, item, same, found)

under_dict :
    (key : String) (fs : Fields) (k : String) (v w : Value)
    → ItemOf k v fs
    → Holds v key w
    → Holds (obj fs) key w
under_dict key fs k v w m (gs, j, u, under, item, same, found) =
    (gs, j, u, in_dict fs k v m under, item, same, found)

mutual
  unfolding find_values find_in_items find_in_fields elements

  find_values-Holds :
      (v : Value) (key : String) (w : Value) → Among w (find_values v key) → Holds v key w
  find_values-Holds (obj fs) key w h = find_in_fields-Holds fs fs (λ k v m. m) key w h
  find_values-Holds (arr items) key w h = find_in_items-Holds items items (λ v m. m) key w h
  find_values-Holds null key w h = absurd h
  find_values-Holds (bool b) key w h = absurd h
  find_values-Holds (int n) key w h = absurd h
  find_values-Holds (real x) key w h = absurd h
  find_values-Holds (str s) key w h = absurd h
  find_values-Holds (datetime d) key w h = absurd h

  find_in_items-Holds :
      (items whole : Items)
      → ((v : Value) → Among v (elements items) → Among v (elements whole))
      → (key : String) (w : Value) → Among w (find_in_items items key)
      → Holds (arr whole) key w
  find_in_items-Holds nil whole m key w h = absurd h
  find_in_items-Holds (cons v items) whole m key w h =
      elim (split w (find_values v key) (find_in_items items key) h) [
        | inl here ↦ under_list key whole v w (m v (inl refl)) (find_values-Holds v key w here)
        | inr later ↦ find_in_items-Holds items whole (λ u a. m u (inr a)) key w later
      ]

  find_in_fields-Holds :
      (fs whole : Fields)
      → ((k : String) (v : Value) → ItemOf k v fs → ItemOf k v whole)
      → (key : String) (w : Value) → Among w (find_in_fields fs key)
      → Holds (obj whole) key w
  find_in_fields-Holds end whole m key w h = absurd h
  find_in_fields-Holds (field k v fs) whole m key w h =
      elim (split w (values_at (same_key k key) v) (find_values v key ++ find_in_fields fs key) h) [
        | inl at ↦
            let (same, found) = at_item key k v w at in
            (whole, k, v, itself, m k v (first_item fs), same, found)
        | inr rest ↦ elim (split w (find_values v key) (find_in_fields fs key) rest) [
          | inl here ↦
              under_dict key whole k v w (m k v (first_item fs)) (find_values-Holds v key w here)
          | inr later ↦
              find_in_fields-Holds fs whole (λ j u a. m j u (later_item k v fs a)) key w later
        ]
      ]
