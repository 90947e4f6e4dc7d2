-- ===== src/Writer/Month.antt =====
-- apps/writers/elasticsearch.py, `_networker_document_month`: the texts that are a month.
use Prim.Native.Char.{Char, code}
use Prim.Native.String.{String, [], ◌∷◌}
use integrated_backup_monito.Prelude.{ℕ, ◌+◌, ◌-◌, ◌*◌, Bool, false, ◌&&◌, leb, nat_beq}
use integrated_backup_monito.Prelude.Text.{is_digit}

-- The digits are ASCII's.
abbrev digit_value : Char → ℕ
digit_value c = code c - 48

abbrev months : Char → Char → ℕ
months f g = 10 * digit_value f + digit_value g

unfoldable pub is_month : String → Bool
unfolding is_digit
is_month (a ∷ b ∷ c ∷ d ∷ e ∷ f ∷ g ∷ []) =
    nat_beq (code e) b'-'
    && is_digit a
    && is_digit b
    && is_digit c
    && is_digit d
    && is_digit f
    && is_digit g
    && leb 1 (months f g)
    && leb (months f g) 12
is_month _ = false
