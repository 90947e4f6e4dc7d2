-- ===== src/Parser/Networker/Group.antt =====
-- What `_protection_group` reads of a command.
use mathlib.Core.Option.{some-injective}
use integrated_backup_monito.Prelude.{
  suc, String, ◌≡◌, refl, sym, ap, ◌∙◌, true, false, Option, none, some, List, [], ◌∷◌, ◌++◌, ◌==◌,
  string_eq, nat_eq, contains, arith, eq_iff, Bool-cases, distinct_bools, inl, inr,
}
use integrated_backup_monito.Prelude.Text.{strip, is_empty, begins_with}
use integrated_backup_monito.Value.{Value, str}
use integrated_backup_monito.Parser.Common.{Platform}
use integrated_backup_monito.Parser.Networker.{
  marks, first_of, after_mark, proper_group, stripped_group, group_of, protection_group,
}

-- A command's tokens with one "-g", and the token after it.
abbrev pub IsMarked : List String → String → Type 0
IsMarked tokens token =
    (before : List String) × (after : List String) × (tokens ≡ before ++ "-g" ∷ token ∷ after)
    × (contains "-g" before ≡ false)
    × (contains "-g" (token ∷ after) ≡ false)

marks-none : (tokens : List String) → marks tokens ≡ 0 → contains "-g" tokens ≡ false
marks-none [] h = refl
marks-none (token ∷ tokens) h =
    ground (arith, marks-none tokens, eq_iff token "-g", eq_iff "-g" token)

head_split :
    (token t : String) (tokens : List String)
    → (t == "-g") ≡ true
    → marks tokens ≡ 0
    → first_of tokens ≡ some token
    → IsMarked (t ∷ tokens) token
head_split token t [] here h e = absurd cc
head_split token t (s ∷ after) here h e = (
  [],
  after,
  ap (λ x. x ∷ s ∷ after) ((eq_iff t "-g").0 here)
      ∙ ap (λ x. "-g" ∷ x ∷ after) (some-injective s token e),
  refl,
  marks-none (token ∷ after) (sym (ap (λ x. marks (x ∷ after)) (some-injective s token e)) ∙ h),
)

after_mark-IsMarked :
    (token : String) (tokens : List String)
    → marks tokens ≡ 1
    → after_mark tokens ≡ some token
    → IsMarked tokens token
after_mark-IsMarked token [] h e = absurd cc
after_mark-IsMarked token (t ∷ tokens) h e = elim (Bool-cases (t == "-g")) [
  | inl here ↦
      let h1 : suc (marks tokens) ≡ 1 = rw here at h in
      let e1 : first_of tokens ≡ some token = rw here at e in
      head_split token t tokens here (omega (arith, h1)) e1
  | inr away ↦
      let h1 : marks tokens ≡ 1 = rw away at h in
      let e1 : after_mark tokens ≡ some token = rw away at e in
      let (before, after, whole, front, back) = after_mark-IsMarked token tokens h1 e1 in
      (
        t ∷ before,
        after,
        ap (λ x. t ∷ x) whole,
        (ground (arith, away, front, eq_iff t "-g", eq_iff "-g" t)),
        back,
      )
]

proper_group-not_empty :
    (value : String)
    → is_empty (proper_group value) ≡ false
    → (proper_group value ≡ value) × (begins_with b'-' value ≡ false)
proper_group-not_empty value h = elim (Bool-cases (is_empty value)) [
  | inl blank ↦ absurd (distinct_bools (rw blank at h))
  | inr filled ↦ elim (Bool-cases (begins_with b'-' value)) [
    | inl dash ↦ absurd (distinct_bools (rw (filled, dash) at h))
    | inr proper ↦ (rw (filled, proper) refl, proper)
  ]
]

stripped_group-some :
    (found : Option String)
    → is_empty (stripped_group found) ≡ false
    → (token : String) × (found ≡ some token)
      × (stripped_group found ≡ strip token)
      × (begins_with b'-' (strip token) ≡ false)
stripped_group-some none h = absurd cc
stripped_group-some (some token) h =
    let (group, proper) = proper_group-not_empty (strip token) h in (token, refl, group, proper)

group_of-IsMarked :
    (read : Option (List String))
    → is_empty (group_of read) ≡ false
    → (tokens : List String) × (token : String) × (read ≡ some tokens)
      × IsMarked tokens token
      × (group_of read ≡ strip token)
      × (begins_with b'-' (strip token) ≡ false)
group_of-IsMarked none h = absurd cc
group_of-IsMarked (some tokens) h = elim (Bool-cases (marks tokens == 1)) [
  | inl once ↦
      let h1 : is_empty (stripped_group (after_mark tokens)) ≡ false = rw once at h in
      let (token, found, group, proper) = stripped_group-some (after_mark tokens) h1 in
      let one : marks tokens ≡ 1 = ground (arith, once) in
      (tokens, token, refl, after_mark-IsMarked token tokens one found, rw once group, proper)
  | inr other ↦ absurd (distinct_bools (rw other at h))
]

-- The group of a command, where it is not empty: the command is a text whose tokens have one "-g"; the
-- group is the token after it, stripped, and does not begin with "-".
pub protection_group-IsMarked :
    (p : Platform) (value : Value)
    → is_empty (protection_group p value) ≡ false
    → (command : String) × (tokens : List String) × (token : String) × (value ≡ str command)
      × (p.shell_tokens command ≡ some tokens)
      × IsMarked tokens token
      × (protection_group p value ≡ strip token)
      × (begins_with b'-' (strip token) ≡ false)
unfolding protection_group
protection_group-IsMarked p (str command) h = elim (Bool-cases (is_empty (strip command))) [
  | inl blank ↦ absurd (ground (arith, h, blank))
  | inr filled ↦
      let h1 : is_empty (group_of (p.shell_tokens command)) ≡ false = rw filled at h in
      let (tokens, token, read, marked, group, proper) =
        group_of-IsMarked (p.shell_tokens command) h1 in
      (command, tokens, token, refl, read, marked, rw filled group, proper)
]
protection_group-IsMarked p _ h = absurd cc
