-- ===== src/Parser/Networker/Counter.antt =====
-- `collections.Counter` as the parser uses it, and `_nested_counts` of
-- apps/parsers/networker_rest_parser.py.
pub mod Laws
use integrated_backup_monito.Prelude.{
  ℕ, suc, ◌+◌, String, Option, List, [], ◌∷◌, Eq, ◌==◌, string_eq, if◌then◌else◌,
}
use integrated_backup_monito.Prelude.Dict.{Dict, lookup, insert, or_default}

module _ {ℓ} {A : Type ℓ} ⦃e : Eq A⦄ where
  -- One more of a key, in the order of first appearance
  unfoldable pub add_one : A → Dict A ℕ → Dict A ℕ
  unfolding insert lookup
  add_one a counts = insert a (suc (or_default 0 (lookup a counts))) counts

  -- `Counter(keys)`
  unfoldable pub count_into : Dict A ℕ → List A → Dict A ℕ
  unfolding add_one
  count_into counts [] = counts
  count_into counts (a ∷ keys) = count_into (add_one a counts) keys

  unfoldable pub counter : List A → Dict A ℕ
  unfolding count_into
  counter keys = count_into [] keys

  -- How often a key stands in a list.
  abbrev pub occurrences : A → List A → ℕ
  occurrences a [] = 0
  occurrences a (b ∷ keys) = (if a == b then 1 else 0) + occurrences a keys

-- `_nested_counts`: the policies of a domain
abbrev pub Nested : Type 0
Nested = Dict String (Dict String ℕ)

unfoldable pub nest : (String × String) × ℕ → Nested → Nested
unfolding insert lookup
nest ((domain, policy), count) result =
    insert domain (insert policy count (or_default [] (lookup domain result))) result

unfoldable pub nest_into : Nested → Dict (String × String) ℕ → Nested
unfolding nest
nest_into result [] = result
nest_into result (c ∷ counts) = nest_into (nest c result) counts

unfoldable pub nested_counts : Dict (String × String) ℕ → Nested
unfolding nest_into
nested_counts counts = nest_into [] counts

abbrev pub count_at : String → String → Nested → Option ℕ
count_at domain policy nested = lookup policy (or_default [] (lookup domain nested))
