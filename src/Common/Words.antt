-- ===== src/Common/Words.antt =====
-- 32-bit words: `unsigned` values are numbers below 2 ^ 32, and every operation wraps.
use Prim.Native.Nat.{ℕ, ◌+◌, ◌-◌, ◌*◌, ◌%◌, ◌^◌}

abbrev pub u32 : ℕ → ℕ
u32 a = a % 2 ^ 32

infixl 65 ◌+w◌ ◌-w◌
abbrev pub ◌+w◌ : ℕ → ℕ → ℕ
a +w b = u32 (a + b)

abbrev pub ◌-w◌ : ℕ → ℕ → ℕ
a -w b = u32 (a + 2 ^ 32 - u32 b)

infixl 70 ◌*w◌
abbrev pub ◌*w◌ : ℕ → ℕ → ℕ
a *w b = u32 (a * b)
