-- ===== src/Slab/Bits.antt =====
-- Bits of the map of a slab.
use helix_os.Common.{
  ℕ, zero, suc, ◌+◌, ◌*◌, ◌/◌, ◌%◌, ◌≤◌, ◌<◌, ◌≡◌, ◌≢◌, sym, ap, ◌∙◌, true, false, arith, ◌==◌,
  if◌then◌else◌, Bool-cases, inl, inr,
}
use helix_os.Slab.{has_bit, set_bit, clear_bit, first_clear}

suc_eq : (i j : ℕ) → (suc i == suc j) ≡ (i == j)
suc_eq i j = ground arith

zero_ne : (j : ℕ) → (0 == suc j) ≡ false
zero_ne j = ground arith

ne_zero : (i : ℕ) → (suc i == 0) ≡ false
ne_zero i = ground arith

pub has_bit-set_bit :
    (map i j : ℕ) → has_bit (set_bit map i) j ≡ (if i == j then true else has_bit map j)
unfolding has_bit set_bit
has_bit-set_bit map zero zero = ground arith
has_bit-set_bit map zero (suc j) =
    let half : (map / 2 * 2 + 1) / 2 ≡ map / 2 = omega arith in
    ap (λ m. has_bit m j) half ∙ ap (λ b. if b then true else has_bit (map / 2) j) (sym (zero_ne j))
has_bit-set_bit map (suc i) zero =
    let low : (set_bit (map / 2) i * 2 + map % 2) % 2 ≡ map % 2 = omega arith in
    ap (λ r. r == 1) low ∙ ap (λ b. if b then true else map % 2 == 1) (sym (ne_zero i))
has_bit-set_bit map (suc i) (suc j) =
    let half : (set_bit (map / 2) i * 2 + map % 2) / 2 ≡ set_bit (map / 2) i = omega arith in
    ap (λ m. has_bit m j) half
    ∙ has_bit-set_bit (map / 2) i j
    ∙ ap (λ b. if b then true else has_bit (map / 2) j) (sym (suc_eq i j))

pub has_bit-clear_bit :
    (map i j : ℕ) → has_bit (clear_bit map i) j ≡ (if i == j then false else has_bit map j)
unfolding has_bit clear_bit
has_bit-clear_bit map zero zero = ground arith
has_bit-clear_bit map zero (suc j) =
    let half : map / 2 * 2 / 2 ≡ map / 2 = omega arith in
    ap (λ m. has_bit m j) half
    ∙ ap (λ b. if b then false else has_bit (map / 2) j) (sym (zero_ne j))
has_bit-clear_bit map (suc i) zero =
    let low : (clear_bit (map / 2) i * 2 + map % 2) % 2 ≡ map % 2 = omega arith in
    ap (λ r. r == 1) low ∙ ap (λ b. if b then false else map % 2 == 1) (sym (ne_zero i))
has_bit-clear_bit map (suc i) (suc j) =
    let half : (clear_bit (map / 2) i * 2 + map % 2) / 2 ≡ clear_bit (map / 2) i = omega arith in
    ap (λ m. has_bit m j) half
    ∙ has_bit-clear_bit (map / 2) i j
    ∙ ap (λ b. if b then false else has_bit (map / 2) j) (sym (suc_eq i j))

-- The lowest bit that is clear, if there is one among the next.
pub first_clear_lowest :
    (left map i k : ℕ)
    → i ≤ k
    → k < i + left
    → has_bit map k ≡ false
    → (has_bit map (first_clear left map i) ≡ false)
      × (i ≤ first_clear left map i)
      × (first_clear left map i ≤ k)
unfolding first_clear
first_clear_lowest zero map i k lo hi clear = absurd (omega arith)
first_clear_lowest (suc left) map i k lo hi clear = elim (Bool-cases (has_bit map i)) [
  | inl taken ↦
      let later : i ≢ k = λ e. absurd (let f : has_bit map k ≡ true = rw (← e) taken in cc) in
      let (free, from, upto) =
        first_clear_lowest left map (i + 1) k (omega arith) (omega arith) clear in
      rw taken (free, omega arith, upto)
  | inr here ↦ rw here (here, omega arith, lo)
]
