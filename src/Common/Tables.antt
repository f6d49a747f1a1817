-- ===== src/Common/Tables.antt =====
-- Facts over a small range, checked at every value by evaluation.
use Prim.Native.Nat.{ℕ, zero, suc, ◌<◌}
use mathlib.Core.Path.{◌≡◌}
use mathlib.Core.Bool.{Bool, true, ◌&&◌}
use native.Mathlib.Omega.{arith}

-- `entry` is true at each place of a table of `size` entries.
unfoldable pub table_holds : (ℕ → Bool) → ℕ → Bool
table_holds entry zero = true
table_holds entry (suc size) = entry size && table_holds entry size

pub entry_of :
    (entry : ℕ → Bool) (size place : ℕ)
    → table_holds entry size ≡ true
    → place < size
    → entry place ≡ true
unfolding table_holds
entry_of entry zero place whole inside = absurd (omega arith)
entry_of entry (suc size) place whole inside = ground (arith, entry_of entry size place)
