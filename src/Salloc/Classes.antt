-- ===== src/Salloc/Classes.antt =====
-- The cache that serves a small size has blocks that are large enough and that fit the page.
use native.Mathlib.Nat.{mul-le-mul_right}
use mathlib.Core.Bool.{false≢true}
use helix_os.Common.{
  ℕ, ◌+◌, ◌*◌, ◌≤◌, ◌<◌, ◌≡◌, refl, sym, ap, ◌∙◌, Bool, true, false, ◌&&◌, Option, none, some,
  arith, leb,
}
use helix_os.Common.Tables.{table_holds, entry_of}
use helix_os.Salloc.{
  min_size, page_size, sheap_valid_denom, next_class, class_of, map_bits, block_size,
  is_initialized,
}

-- The size of a slab's header, `slab_t`, on i586: three pointers, a 64-bit map and three words.
abbrev header_size : ℕ
header_size = 32

-- The cache `bits - 1` serves `size`.
abbrev serves : ℕ → ℕ → Bool
serves size bits =
    let block = block_size (min_size * bits) in
    let n = map_bits (min_size * bits) in
    is_initialized bits
    && (leb size block && (leb header_size block && (leb 2 n && leb (n * block) page_size)))

abbrev is_served : ℕ → Bool
is_served size = elim (class_of size) [ none ↦ false | some bits ↦ serves size bits ]

served_table : table_holds is_served 1024 ≡ true
unfolding table_holds class_of next_class sheap_valid_denom map_bits block_size is_initialized
served_table = refl

-- What the cache `bits - 1` offers for `size`: `sheap_init_at_addr` has set it up, a block has
-- room, and every block but the first, which holds the slab's header, lies behind that header and
-- inside the page.
pub record Fits (size bits : ℕ) : Type 0 where
  pub initialized : is_initialized bits ≡ true
  pub large_enough : size ≤ block_size (min_size * bits)
  pub some_block : 2 ≤ map_bits (min_size * bits)
  pub inside :
      (k : ℕ)
      → 0 < k
      → k < map_bits (min_size * bits)
      → (header_size ≤ k * block_size (min_size * bits))
        × ((k + 1) * block_size (min_size * bits) ≤ page_size)

blocks_inside :
    (n block k : ℕ)
    → header_size ≤ block
    → n * block ≤ page_size
    → 0 < k
    → k < n
    → (header_size ≤ k * block) × ((k + 1) * block ≤ page_size)
blocks_inside n block k head all lo hi = (
  omega (arith, mul-le-mul_right {m = 1} {n = k} block lo),
  omega (arith, mul-le-mul_right {m = k + 1} {n = n} block (omega arith)),
)

serves-Fits : (size bits : ℕ) → serves size bits ≡ true → Fits size bits
serves-Fits size bits e = record {
  initialized = ground arith;
  large_enough = ground arith;
  some_block = ground arith;
  inside = λ k lo hi.
      blocks_inside (map_bits (min_size * bits)) (block_size (min_size * bits)) k (ground arith)
        (ground arith) lo hi;
}

served-Fits :
    (size : ℕ) (o : Option ℕ)
    → class_of size ≡ o
    → is_served size ≡ true
    → (bits : ℕ) × (class_of size ≡ some bits) × Fits size bits
served-Fits size none e h = absurd (false≢true (sym (ap served_by e) ∙ h))
  where
    served_by : Option ℕ → Bool
    served_by o = elim o [ none ↦ false | some bits ↦ serves size bits ]
served-Fits size (some bits) e h = (bits, e, serves-Fits size bits (sym (ap served_by e) ∙ h))
  where
    served_by : Option ℕ → Bool
    served_by o = elim o [ none ↦ false | some bits ↦ serves size bits ]

-- Every size below 1024 is served by a cache that is set up, whose blocks have room for it, lie
-- behind the slab's header and do not pass the end of the page.
pub class_of-Fits :
    (size : ℕ) → size < 1024 → (bits : ℕ) × (class_of size ≡ some bits) × Fits size bits
class_of-Fits size small =
    served-Fits size (class_of size) refl (entry_of is_served 1024 size served_table small)
