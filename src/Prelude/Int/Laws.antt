-- ===== src/Prelude/Int/Laws.antt =====
-- Laws of the sum of integers.
use mathlib.Core.Path.{◌≡◌}
use native.Mathlib.Omega.{arith}
use integrated_backup_monito.Prelude.Int.{ℤ, pos, ◌+ℤ◌}

pub add_comm : (a b : ℤ) → a +ℤ b ≡ b +ℤ a
unfolding ◌+ℤ◌
add_comm a b = ground arith

pub zero-add : (a : ℤ) → pos 0 +ℤ a ≡ a
unfolding ◌+ℤ◌
zero-add a = ground arith

pub add_assoc : (a b c : ℤ) → (a +ℤ b) +ℤ c ≡ a +ℤ (b +ℤ c)
unfolding ◌+ℤ◌
add_assoc a b c = ground arith
