-- ===== src/Pipe/Ring.antt =====
-- The bytes that a line holds, oldest first, and the invariant of a line.
use native.Mathlib.Nat.{mod-add-mod, div-add-mod, mod-lt, mul-le-mul_left}
use helix_os.Common.{
  ℕ, zero, suc, ◌+◌, ◌-◌, ◌*◌, ◌/◌, ◌%◌, ◌^◌, ◌≤◌, ◌<◌, ◌≡◌, ◌≢◌, refl, sym, ap, ◌∙◌, List, [], ◌∷◌,
  ◌++◌, arith, length, get_or, set, dec_lt, get_or-set_self, get_or-set_ne,
}
use helix_os.Pipe.{Pipeline}

pub record IsValid (line : Pipeline) : Type 0 where
  pub room : line.size ≤ length line.buf
  pub small : line.size ≤ 2 ^ 31
  pub avail_in : line.avail < line.size
  pub read_in : line.readp < line.size
  pub write_word : line.writep < 2 ^ 32
  pub whole : 2 ^ 32 % line.size ≡ 0
  pub aligned : (line.readp + line.avail) % line.size ≡ line.writep % line.size

-- The `n` bytes from position `start` on, where positions go round at `size`.
abbrev pub span : List ℕ → ℕ → ℕ → ℕ → List ℕ
span buf size start zero = []
span buf size start (suc n) = get_or buf (start % size) 0 ∷ span buf size (start + 1) n

abbrev pub contents : Pipeline → List ℕ
contents line = span line.buf line.size line.readp line.avail

pub length-span : (buf : List ℕ) (size start n : ℕ) → length (span buf size start n) ≡ n
length-span buf size start zero = refl
length-span buf size start (suc n) = ap suc (length-span buf size (start + 1) n)

quotient_gap : (size p q r a b : ℕ) → a ≡ size * p + r → b ≡ size * q + r → a < b → b < a + size → ⊥
quotient_gap size p q r a b ea eb lo hi = elim (dec_lt p q) [
  | yes h ↦ omega (arith, mul-le-mul_left {m = p + 1} {n = q} size (omega arith))
  | no h ↦ omega (arith, mul-le-mul_left {m = q} {n = p} size (omega arith))
]

-- Fewer than `size` steps round the ring do not come back to the same place.
pub mod_apart : (size s k n : ℕ) → k < n → n < k + size → (s + k) % size ≢ (s + n) % size
mod_apart size s k n lo hi e =
    quotient_gap size ((s + k) / size) ((s + n) / size) ((s + n) % size) (s + k) (s + n)
      (omega (arith, div-add-mod (s + k) size)) (omega (arith, div-add-mod (s + n) size))
      (omega arith) (omega arith)

pub step-mod : (size s t : ℕ) → s % size ≡ t % size → (s + 1) % size ≡ (t + 1) % size
step-mod size s t e = sym (mod-add-mod s size 1) ∙ ap (λ r. (r + 1) % size) e ∙ mod-add-mod t size 1

-- A span goes by the place where it starts.
pub span-mod :
    (buf : List ℕ) (size s t n : ℕ) → s % size ≡ t % size → span buf size s n ≡ span buf size t n
span-mod buf size s t zero e = refl
span-mod buf size s t (suc n) e =
    rw (e, span-mod buf size (s + 1) (t + 1) n (step-mod size s t e)) refl

-- A write to a place that a span does not reach leaves it alone.
pub span-set_ne :
    (buf : List ℕ) (size s n i v : ℕ)
    → ((k : ℕ) → k < n → i ≢ (s + k) % size)
    → span (set buf i v) size s n ≡ span buf size s n
span-set_ne buf size s zero i v ne = refl
span-set_ne buf size s (suc n) i v ne = ground (
  arith,
  get_or-set_ne buf i (s % size) v 0 first,
  span-set_ne buf size (s + 1) n i v
      (λ k h e. ne (k + 1) (omega arith) (e ∙ ap (λ t. t % size) (omega arith))),
)
  where
    first : i ≢ s % size
    first e = ne 0 (omega arith) (e ∙ ap (λ t. t % size) (omega arith))

span-snoc :
    (buf : List ℕ) (size s n : ℕ)
    → span buf size s (suc n) ≡ span buf size s n ++ get_or buf ((s + n) % size) 0 ∷ []
span-snoc buf size s zero = ap (λ t. get_or buf (t % size) 0 ∷ []) (omega arith)
span-snoc buf size s (suc n) =
    ap (λ r. get_or buf (s % size) 0 ∷ r)
      (span-snoc buf size (s + 1) n
        ∙ ap (λ t. span buf size (s + 1) n ++ get_or buf (t % size) 0 ∷ []) (omega arith))

-- Writing just behind a span extends it by that byte.
pub span-set :
    (buf : List ℕ) (size s n i v : ℕ)
    → size ≤ length buf
    → n < size
    → i ≡ (s + n) % size
    → span (set buf i v) size s (suc n) ≡ span buf size s n ++ v ∷ []
span-set buf size s n i v room small e =
    span-snoc (set buf i v) size s n
    ∙ rw (span-set_ne buf size s n i v apart, ← e, get_or-set_self buf i v 0 inside)
  where
    apart : (k : ℕ) → k < n → i ≢ (s + k) % size
    apart k h eq = mod_apart size s k n h (omega arith) (sym eq ∙ e)

    inside : i < length buf
    inside = omega (arith, mod-lt (s + n) {m = size} (omega arith))

pub span-pop :
    (buf : List ℕ) (size s n : ℕ)
    → n ≢ 0
    → span buf size s n ≡ get_or buf (s % size) 0 ∷ span buf size (s + 1) (n - 1)
span-pop buf size s zero ne = absurd (ne refl)
span-pop buf size s (suc n) ne = ap (λ k. span buf size s (suc k)) (omega arith)
