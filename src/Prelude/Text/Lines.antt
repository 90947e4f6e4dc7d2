-- ===== src/Prelude/Text/Lines.antt =====
-- Python's `str.splitlines`, and laws of texts that are cut at a character.
use Prim.Native.Char.{Char, code}
use Prim.Native.String.{String, [], ◌∷◌, ◌++◌ as ◌<>◌}
use text.Mathlib.TextLemmas.{cons-append, nil-append}
use mathlib.Core.Path.{◌≡◌, refl, sym, ap, ◌∙◌}
use mathlib.Core.Logic.{inl, inr}
use mathlib.Core.List.{List}
use mathlib.Core.Option.{some}
use mathlib.Core.Bool.{Bool, true, ◌&&◌, ◌||◌, not}
use integrated_backup_monito.Prelude.Tests.{leb, nat_beq, if◌then◌else◌, Bool-cases, distinct_bools}
use integrated_backup_monito.Prelude.Text.{
  all_chars, begins_with, split_once, without_prefix, is_space, drop_while, drop_while_end,
  drop_last, strip,
}
use Prim.Native.Nat.{ℕ}
use native.Mathlib.Omega.{arith}

-- The ends of lines; a carriage return and a line feed are one.
unfoldable pub is_line_end : Char → Bool
is_line_end c =
    let n = code c in
    (leb 10 n && leb n 13)
    || (leb 28 n && leb n 30)
    || nat_beq n 133
    || nat_beq n 8232
    || nat_beq n 8233

abbrev pub extend : Char → List String → List String
extend c List.[] = List.◌∷◌ (c ∷ []) List.[]
extend c (List.◌∷◌ line lines) = List.◌∷◌ (c ∷ line) lines

unfoldable pub splitlines : String → List String
unfolding is_line_end begins_with
splitlines [] = List.[]
splitlines (c ∷ s) =
    let rest = splitlines s in
    if is_line_end c
    then (if nat_beq (code c) 13 && begins_with 10 s then rest else List.◌∷◌ "" rest)
    else extend c rest

-- A text that has none of the ends is a line.
unfoldable pub is_line : String → Bool
unfolding is_line_end
is_line s = all_chars (λ c. not (is_line_end c)) s

all_chars-cons :
    (test : Char → Bool) (c : Char) (s : String)
    → all_chars test (c ∷ s) ≡ true
    → (test c ≡ true) × (all_chars test s ≡ true)
all_chars-cons test c s h = elim (Bool-cases (test c)) [
  | inl here ↦ (here, rw (here, all_chars) at h)
  | inr other ↦ absurd (distinct_bools (sym (rw (other, all_chars) at h)))
]

pub splitlines-line :
    (line rest : String)
    → is_line line ≡ true
    → splitlines (line <> ("\n" <> rest)) ≡ List.◌∷◌ line (splitlines rest)
unfolding splitlines is_line
splitlines-line [] rest h =
    rw (nil-append ("\n" <> rest), cons-append "\n" "" rest, nil-append rest) refl
splitlines-line (c ∷ line) rest h =
    let parts = all_chars-cons (λ d. not (is_line_end d)) c line h in
    elim (Bool-cases (is_line_end c)) [
      | inl ends ↦ absurd (distinct_bools (sym (ap not (sym ends) ∙ parts.0)))
      | inr plain ↦
          rw (cons-append c line ("\n" <> rest), plain, splitlines-line line rest parts.1) refl
    ]

-- The text before the first of a character.
pub split_once-first :
    (n : ℕ) (s : String) (c : Char) (t : String)
    → all_chars (λ d. not (nat_beq (code d) n)) s ≡ true
    → nat_beq (code c) n ≡ true
    → split_once n (s <> (c ∷ t)) ≡ some (s, t)
unfolding split_once
split_once-first n [] c t h e = rw (nil-append (c ∷ t), e) refl
split_once-first n (d ∷ s) c t h e =
    let parts = all_chars-cons (λ x. not (nat_beq (code x) n)) d s h in
    elim (Bool-cases (nat_beq (code d) n)) [
      | inl here ↦ absurd (distinct_bools (sym (ap not (sym here) ∙ parts.0)))
      | inr further ↦ rw (cons-append d s (c ∷ t), further, split_once-first n s c t parts.1 e) refl
    ]

-- A space at the end is stripped.
drop_while_end-space : (s : String) → drop_while_end is_space (s <> " ") ≡ drop_while_end is_space s
unfolding drop_while_end is_space
drop_while_end-space [] = refl
drop_while_end-space (c ∷ s) =
    rw (cons-append c s " ") (ap (drop_last (is_space c) c) (drop_while_end-space s))

drop_while-space :
    (s : String)
    → drop_while_end is_space (drop_while is_space (s <> " "))
      ≡ drop_while_end is_space (drop_while is_space s)
unfolding drop_while_end drop_while is_space
drop_while-space [] = refl
drop_while-space (c ∷ s) = elim (Bool-cases (is_space c)) [
  | inl space ↦ rw (cons-append c s " ", space, drop_while) (drop_while-space s)
  | inr plain ↦
      rw (cons-append c s " ", plain, drop_while)
        (ap (drop_last (is_space c) c) (drop_while_end-space s))
]

pub strip-space : (s : String) → strip (s <> " ") ≡ strip s
unfolding strip
strip-space s = drop_while-space s

pub without_prefix-append : (p s : String) → without_prefix p (p <> s) ≡ some s
unfolding without_prefix
without_prefix-append [] s = rw (nil-append s) refl
without_prefix-append (c ∷ p) s = rw (cons-append c p s) ground (arith, without_prefix-append p s)
