-- ===== src/Parser/Networker/Summary/Counts.antt =====
-- The counts of a summary, against a count of the records themselves.
use integrated_backup_monito.Prelude.{
  ℕ, ◌+◌, String, ◌≡◌, refl, ◌∙◌, Bool, ◌&&◌, List, [], ◌∷◌, Eq, ◌==◌, string_eq, pair_eq, arith,
  if◌then◌else◌,
}
use integrated_backup_monito.Prelude.Dict.{or_default}
use integrated_backup_monito.Value.{Fields}
use integrated_backup_monito.Parser.Networker.Counter.{occurrences, count_at}
use integrated_backup_monito.Parser.Networker.Counter.Laws.{nested_counts-counter}
use integrated_backup_monito.Parser.Networker.Summary.{keys_with, domain_policy, counts_by_domain}

-- How many records pass a test.
abbrev pub count_where : (Fields → Bool) → List Fields → ℕ
count_where test [] = 0
count_where test (r ∷ rs) = (if test r then 1 else 0) + count_where test rs

occurrences-keys_with {ℓ} :
    {A : Type ℓ} ⦃e : Eq A⦄ (a : A) (test : Fields → Bool) (key : Fields → A)
    (records : List Fields)
    → occurrences a (keys_with test key records) ≡ count_where (λ r. test r && (a == key r)) records
unfolding keys_with
occurrences-keys_with a test key [] = refl
occurrences-keys_with a test key (r ∷ rs) = ground (arith, occurrences-keys_with a test key rs)

-- The count that a summary has under a domain and a policy is the number of the records of the status, or
-- with no status of all records, whose domain and whose policy name, "unknown" for an empty one,
-- they are.
pub counts_by_domain-count :
    (domain policy : String) (test : Fields → Bool) (records : List Fields)
    → or_default 0 (count_at domain policy (counts_by_domain test records))
      ≡ count_where (λ r. test r && ((domain, policy) == domain_policy r)) records
unfolding counts_by_domain
counts_by_domain-count domain policy test records =
    nested_counts-counter domain policy (keys_with test domain_policy records)
    ∙ occurrences-keys_with (domain, policy) test domain_policy records
