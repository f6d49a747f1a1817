-- ===== src/Salloc.antt =====
-- The sizes with which the kernel heap works: kernel/base/mem/salloc.c chooses a slab cache or a
-- run of pages for a size, and kernel/base/mem/slabnew.c lays out the blocks of a cache.
pub mod Classes
pub mod Layout
pub mod Pages
pub mod Arrays
mod Tests
use Prim.Native.Nat.{bit_and}
use helix_os.Common.{
  ℕ, zero, suc, ◌+◌, ◌-◌, ◌*◌, ◌/◌, ◌%◌, ◌^◌, Bool, true, false, not, ◌&&◌, ◌||◌, Option, none,
  some, ltb, leb, ◌==◌, if◌then◌else◌, ◌+w◌,
}

abbrev pub page_size : ℕ
page_size = 0x1000

abbrev pub slab_max_bits : ℕ
slab_max_bits = 64

-- `n / d + (n % d > 0)`
abbrev pub div_up : ℕ → ℕ → ℕ
div_up n d = n / d + (if ltb 0 (n % d) then 1 else 0)

abbrev pub min_size : ℕ
min_size = page_size / slab_max_bits

pub sheap_valid_denom : ℕ → Bool
sheap_valid_denom i =
    not ((slab_max_bits / i) % 2 == 1) && (page_size / (slab_max_bits / i) / min_size == i)

-- `while ( !sheap_valid_denom( bits ) && bits <= 16 ) bits++;`
pub next_class : ℕ → ℕ → Option ℕ
next_class zero bits = none
next_class (suc fuel) bits =
    let rest = next_class fuel (bits + 1) in
    if not (sheap_valid_denom bits) && leb bits 16 then rest else some bits

-- Which cache `sheap_alloc` takes for a small size: `none` where it takes none.
pub class_of : ℕ → Option ℕ
class_of size = elim (next_class 18 (div_up (if size == 0 then 1 else size) min_size)) [
  | none ↦ none
  | some bits ↦ if not (bits == 0) && leb bits 16 then some bits else none
]

-- `map_bits` and `block_size`, as `new_slab_cache_at_addr` sets them (`ALIGN_BLOCKS` is 0).
pub map_bits : ℕ → ℕ
map_bits obj_size = let bits = slab_max_bits / div_up obj_size min_size in bits - bits % 2

pub block_size : ℕ → ℕ
block_size obj_size = page_size / map_bits obj_size

-- `sheap_init_at_addr` initializes the cache `i - 1` for objects of `min_size * i` bytes where
-- this holds.
pub is_initialized : ℕ → Bool
is_initialized i = leb 1 i && leb i (1024 / min_size) && sheap_valid_denom i

-- The pages that `sheap_alloc` asks for where the size is 1024 or more. The length word that it
-- puts in front has four bytes.
pub mapped_pages : ℕ → ℕ
mapped_pages size = (size +w 4) / page_size + (if ltb 0 (size % page_size) then 1 else 0)

-- The pages that `sheap_free` counts for such a block, from the length word in front of it.
pub freed_pages : ℕ → ℕ
freed_pages length = length / page_size + (if ltb 0 (length % page_size) then 1 else 0)

-- `is_mapped_alloc`, by which `sheap_free` and `sheap_realloc` tell such a block from a slab's.
pub is_mapped_alloc : ℕ → Bool
is_mapped_alloc ptr = bit_and ptr (page_size - 1) == 4
