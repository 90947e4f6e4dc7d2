-- ===== src/Prelude/Text/Case.antt =====
-- Lowered texts.
use Prim.Native.Char.{Char, code}
use Prim.Native.String.{String, [], ◌∷◌}
use mathlib.Core.Path.{◌≡◌, refl, ap, ◌∙◌}
use mathlib.Core.Logic.{◌⊎◌, inl, inr}
use integrated_backup_monito.Prelude.Tests.{nat_beq, Bool-cases}
use integrated_backup_monito.Prelude.Text.{translate, lower_char, lower}

AllChars : (Char → Type 0) → String → Type 0
AllChars P [] = Unit
AllChars P (c ∷ s) = P c × AllChars P s

translate-cases :
    (P : Char → Type 0) (us ls : String) (c : Char)
    → AllChars P ls
    → (translate us ls c ≡ c) ⊎ P (translate us ls c)
unfolding translate AllChars
translate-cases P [] ls c h = inl refl
translate-cases P (u ∷ us) [] c h = inl refl
translate-cases P (u ∷ us) (l ∷ ls) c h = elim (Bool-cases (nat_beq (code u) (code c))) [
  | inl here ↦ inr (rw here h.0)
  | inr further ↦ rw further (translate-cases P us ls c h.1)
]

IsLower : Char → Type 0
IsLower c = lower_char c ≡ c

letters-IsLower : AllChars IsLower "abcdefghijklmnopqrstuvwxyzk"
unfolding AllChars IsLower lower_char translate
letters-IsLower = (
  refl,
  (
    refl,
    (
      refl,
      (
        refl,
        (
          refl,
          (
            refl,
            (
              refl,
              (
                refl,
                (
                  refl,
                  (
                    refl,
                    (
                      refl,
                      (
                        refl,
                        (
                          refl,
                          (
                            refl,
                            (
                              refl,
                              (
                                refl,
                                (
                                  refl,
                                  (
                                    refl,
                                    (
                                      refl,
                                      (
                                        refl,
                                        (refl, (refl, (refl, (refl, (refl, (refl, (refl, tt))))))),
                                      ),
                                    ),
                                  ),
                                ),
                              ),
                            ),
                          ),
                        ),
                      ),
                    ),
                  ),
                ),
              ),
            ),
          ),
        ),
      ),
    ),
  ),
)

fixed :
    (c : Char)
    → (lower_char c ≡ c) ⊎ IsLower (lower_char c)
    → lower_char (lower_char c) ≡ lower_char c
unfolding IsLower
fixed c (inl h) = ap lower_char h
fixed c (inr h) = h

lower_char-lower_char : (c : Char) → lower_char (lower_char c) ≡ lower_char c
unfolding lower_char
lower_char-lower_char c = fixed c (
    translate-cases IsLower "ABCDEFGHIJKLMNOPQRSTUVWXYZK" "abcdefghijklmnopqrstuvwxyzk" c
      letters-IsLower)

pub lower-lower : (s : String) → lower (lower s) ≡ lower s
unfolding lower
lower-lower [] = refl
lower-lower (c ∷ s) =
    ap (λ d. d ∷ lower (lower s)) (lower_char-lower_char c)
    ∙ ap (λ t. lower_char c ∷ t) (lower-lower s)
