-- ===== src/Value/Merge.antt =====
-- What a merged dict has under a key.
use integrated_backup_monito.Prelude.{
  String, ◌≡◌, refl, ap, ◌∙◌, false, some, List, [], ◌∷◌, ◌==◌, string_eq, contains, arith, eq_iff,
  Bool-cases, inl, inr, if◌then◌else◌,
}
use integrated_backup_monito.Value.{Value, Fields, end, field, find, get, put, merge, fields}

pub get-put :
    (j k : String) (v : Value) (fs : Fields) → get j (put k v fs) ≡ (if j == k then v else get j fs)
unfolding get put find
get-put j k v end = ground arith
get-put j k v (field i w fs) = ground (arith, eq_iff j k, eq_iff k i, eq_iff j i, get-put j k v fs)

pub find-put :
    (j k : String) (v : Value) (fs : Fields)
    → find j (put k v fs) ≡ (if j == k then some v else find j fs)
unfolding put find
find-put j k v end = ground arith
find-put j k v (field i w fs) =
    ground (arith, eq_iff j k, eq_iff k i, eq_iff j i, find-put j k v fs)

-- The value that is left when the items are set one after the other.
abbrev pub set_over : String → List (String × Value) → Value → Value
set_over j [] v = v
set_over j ((k, w) ∷ rest) v = set_over j rest (if j == k then w else v)

pub get-merge :
    (j : String) (fs : Fields) (items : List (String × Value))
    → get j (merge fs (fields items)) ≡ set_over j items (get j fs)
unfolding merge fields
get-merge j fs [] = refl
get-merge j fs ((k, w) ∷ rest) =
    get-merge j (put k w fs) rest ∙ ap (set_over j rest) (get-put j k w fs)

abbrev pub names : List (String × Value) → List String
names [] = []
names ((k, w) ∷ rest) = k ∷ names rest

pub set_over-other :
    (j : String) (items : List (String × Value)) (v : Value)
    → contains j (names items) ≡ false
    → set_over j items v ≡ v
set_over-other j [] v h = refl
set_over-other j ((k, w) ∷ rest) v h = elim (Bool-cases (j == k)) [
  | inl here ↦ absurd (ground (arith, h, here))
  | inr further ↦ rw further (set_over-other j rest v (ground (arith, h, further)))
]
