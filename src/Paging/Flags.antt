-- ===== src/Paging/Flags.antt =====
-- An address of a page joined with its flags.
use Prim.Native.Nat.{bit_or, digits, bit_or-bitwise, max}
use helix_os.Common.{ℕ, zero, suc, ◌+◌, ◌*◌, ◌/◌, ◌%◌, ◌≤◌, ◌<◌, ◌≡◌, refl, sym, ap, ◌∙◌, arith}
use helix_os.Paging.{page_of}

-- The law for the lowest digit, from the definition that the native operation stands for.
abbrev or_digits : ℕ → ℕ → ℕ → ℕ
or_digits n a b = digits (λ b. b) max n a b

or_digits_fuel : (n m a b : ℕ) → a ≤ n → a ≤ m → or_digits n a b ≡ or_digits m a b
or_digits_fuel zero zero a b p q = refl
or_digits_fuel zero (suc m) zero b p q = refl
or_digits_fuel zero (suc m) (suc a) b p q = absurd (omega arith)
or_digits_fuel (suc n) zero zero b p q = refl
or_digits_fuel (suc n) zero (suc a) b p q = absurd (omega arith)
or_digits_fuel (suc n) (suc m) zero b p q = refl
or_digits_fuel (suc n) (suc m) (suc a) b p q =
    omega (arith, or_digits_fuel n m (suc a / 2) (b / 2) (omega arith) (omega arith))

pub zero-bit_or : (b : ℕ) → bit_or 0 b ≡ b
zero-bit_or b = bit_or-bitwise 0 b

pub bit_or_step : (a b : ℕ) → bit_or a b ≡ bit_or (a / 2) (b / 2) * 2 + max (a % 2) (b % 2)
bit_or_step zero b = omega (arith, zero-bit_or b, zero-bit_or (b / 2))
bit_or_step (suc a) b = omega (
  arith,
  bit_or-bitwise (suc a) b,
  bit_or-bitwise (suc a / 2) (b / 2),
  or_digits_fuel a (suc a / 2) (suc a / 2) (b / 2) (omega arith) (omega arith),
)

bit_or-zero_fuel : (n a : ℕ) → a ≤ n → bit_or a 0 ≡ a
bit_or-zero_fuel n zero h = refl
bit_or-zero_fuel zero (suc a) h = absurd (omega arith)
bit_or-zero_fuel (suc n) (suc a) h =
    omega (arith, bit_or_step (suc a) 0, bit_or-zero_fuel n (suc a / 2) (omega arith))

-- `a` shifted by `k` places, and a number of at most `k` digits.
abbrev shift : ℕ → ℕ → ℕ
shift zero a = a
shift (suc k) a = 2 * shift k a

abbrev Fits : ℕ → ℕ → Type 0
Fits zero b = b ≡ 0
Fits (suc k) b = Fits k (b / 2)

-- Where the lowest digits of the one are zeros, `|` is a sum.
bit_or-shift : (k a b : ℕ) → Fits k b → bit_or (shift k a) b ≡ shift k a + b
bit_or-shift zero a b fits = rw fits (bit_or-zero_fuel a a (omega arith) ∙ omega arith)
bit_or-shift (suc k) a b fits =
    let half : 2 * shift k a / 2 ≡ shift k a = omega arith in
    let more = bit_or-shift k a (b / 2) fits in
    bit_or_step (2 * shift k a) b
    ∙ ap (λ x. bit_or x (b / 2) * 2 + max (2 * shift k a % 2) (b % 2)) half
    ∙ omega (arith, more)

pub page-flags : (a flags : ℕ) → flags < 4096 → bit_or (page_of a) flags ≡ page_of a + flags
page-flags a flags small =
    let e : page_of a ≡ shift 12 (a / 4096) = omega arith in
    ap (λ x. bit_or x flags) e
    ∙ bit_or-shift 12 (a / 4096) flags (omega arith)
    ∙ ap (λ x. x + flags) (sym e)
