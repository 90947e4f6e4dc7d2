-- ===== src/Parser/Networker/Monthly/Rows.antt =====
-- What the rows of the monthly report count.
use integrated_backup_monito.Prelude.{
  other_text, ℕ, ◌+◌, ◌≡◌, ◌↔◌, refl, sym, ap, ◌∙◌, Bool, true, false, ◌&&◌, Option, none, some,
  List, [], ◌∷◌, ◌==◌, string_eq, triple_eq, triple_beq_iff, arith, Bool-cases, distinct_bools, inl,
  inr, if◌then◌else◌,
}
use integrated_backup_monito.Prelude.Dict.{lookup}
use integrated_backup_monito.Value.{Fields}
use integrated_backup_monito.Parser.Networker.Summary.{text_at, has_status}
use integrated_backup_monito.Parser.Networker.Summary.Counts.{count_where}
use integrated_backup_monito.Parser.Networker.Monthly.{
  Row, Key, Rows, new_row, key_of, change, with_job, change_all,
}

-- The row that a key has, the default where it has none.
abbrev or_new : Option Row → Row
or_new none = new_row
or_new (some r) = r

abbrev pub row_at : Key → Rows → Row
row_at key rows = or_new (lookup key rows)

-- Three keys: two are the same, and the third is or is not.
same_as : (a b c : Key) → (b == c) ≡ true → (a == c) ≡ (a == b)
same_as a b c h = ap (λ k. a == k) (sym ((triple_beq_iff b c).0 h))

differs : (a b c : Key) → (b == c) ≡ false → (a == c) ≡ true → (a == b) ≡ false
differs a b c h e =
    let moved : (b == a) ≡ false = ap (λ k. b == k) ((triple_beq_iff a c).0 e) ∙ h in
    turned (triple_beq_iff a b) (triple_beq_iff b a) moved
  where
    turned :
        ((a == b) ≡ true) ↔ (a ≡ b)
        → ((b == a) ≡ true) ↔ (b ≡ a)
        → (b == a) ≡ false
        → (a == b) ≡ false
    turned p q m = elim (Bool-cases (a == b)) [
      | inl here ↦ absurd (distinct_bools ((sym (q.1 (sym (p.0 here)))) ∙ m))
      | inr other ↦ other
    ]

pub row_at-change :
    (key other : Key) (f : Row → Row) (rows : Rows)
    → row_at key (change other f rows)
      ≡ (if key == other then f (row_at key rows) else row_at key rows)
unfolding change lookup
row_at-change key other f [] = elim (Bool-cases (key == other)) [
  | inl here ↦ rw here refl
  | inr away ↦ rw away refl
]
row_at-change key other f ((k, r) ∷ rows) = elim (Bool-cases (other == k)) [
  | inl mine ↦ elim (Bool-cases (key == k)) [
    | inl here ↦ rw (mine, here, sym (same_as key other k mine) ∙ here) refl
    | inr away ↦ rw (mine, away, sym (same_as key other k mine) ∙ away) refl
  ]
  | inr further ↦ elim (Bool-cases (key == k)) [
    | inl here ↦ rw (further, here, differs key other k further here) refl
    | inr away ↦ rw (further, away) (row_at-change key other f rows)
  ]
]

abbrev pub one_if : Bool → ℕ
one_if test = if test then 1 else 0

true-and : (b : Bool) → one_if (b && true) ≡ one_if b
true-and true = refl
true-and false = refl

and_false : (b : Bool) → one_if (b && false) ≡ 0
and_false true = refl
and_false false = refl

-- A measure that a loop raises by one at the records that pass a test.
module _ (g : Row → ℕ) (f : Fields → Row → Row) (test : Fields → Bool)
    (raises : (entry : Fields) (r : Row)
      → g (f entry r) ≡ (if test entry then 1 else 0) + g r) where
  pub change_all-count :
      (key : Key) (records : List Fields) (rows : Rows)
      → g (row_at key (change_all f records rows))
        ≡ count_where (λ e. test e && (key == key_of e)) records + g (row_at key rows)
  unfolding change_all
  change_all-count key [] rows = omega arith
  change_all-count key (e ∷ records) rows =
      let later = change_all-count key records (change (key_of e) (f e) rows) in
      let now = row_at-change key (key_of e) (f e) rows in
      elim (Bool-cases (key == key_of e)) [
        | inl here ↦
            let found : row_at key (change (key_of e) (f e) rows) ≡ f e (row_at key rows) =
              now ∙ rw here refl in
            rw here omega (arith, later, ap g found, raises e (row_at key rows), true-and (test e))
        | inr away ↦
            let kept : row_at key (change (key_of e) (f e) rows) ≡ row_at key rows =
              now ∙ rw away refl in
            rw away omega (arith, later, ap g kept, and_false (test e))
      ]

-- The change of a row by a job, at each count.
pub job_success :
    (j : Fields) (r : Row)
    → (with_job j r).job_success_count ≡ one_if (has_status "success" j) + r.job_success_count
job_success j r = ground arith

pub job_failed :
    (j : Fields) (r : Row)
    → (with_job j r).job_failed_count ≡ one_if (has_status "failed" j) + r.job_failed_count
job_failed j r = ground (arith, other_text "success" "failed" (text_at "status" j) refl)

pub job_running :
    (j : Fields) (r : Row)
    → (with_job j r).job_running_count ≡ one_if (has_status "running" j) + r.job_running_count
job_running j r = ground (
  arith,
  other_text "success" "running" (text_at "status" j) refl,
  other_text "failed" "running" (text_at "status" j) refl,
)
