-- ===== src/Salloc/Layout.antt =====
-- Where the blocks of a cache lie, for each size of an object.
use native.Mathlib.Nat.{mul-le-mul_right}
use helix_os.Common.{ℕ, ◌+◌, ◌*◌, ◌≤◌, ◌<◌, ◌≡◌, refl, Bool, true, ◌&&◌, ◌||◌, arith, leb, ◌==◌}
use helix_os.Common.Tables.{table_holds, entry_of}
use helix_os.Salloc.{map_bits, block_size}

-- The blocks of a cache for objects of `size` bytes.
abbrev lies_in_page : ℕ → Bool
lies_in_page size =
    let n = map_bits size in
    let block = block_size size in
    (size == 0)
    || (leb 2 n && (leb n 64 && (leb 1 block && (leb size block && leb (n * block) 4096))))

page_table : table_holds lies_in_page 1025 ≡ true
unfolding table_holds map_bits block_size
page_table = refl

pub record LiesInPage (size : ℕ) : Type 0 where
  pub some_block : 2 ≤ map_bits size
  pub bits : map_bits size ≤ 64
  pub room : size ≤ block_size size
  pub inside : (k : ℕ) → k < map_bits size → k * block_size size + block_size size ≤ 4096

block_in_page : (n block k : ℕ) → n * block ≤ 4096 → k < n → k * block + block ≤ 4096
block_in_page n block k whole below =
    let upto : (k + 1) * block ≤ n * block = mul-le-mul_right block (omega arith) in grind arith

pub size-LiesInPage : (size : ℕ) → 0 < size → size ≤ 1024 → LiesInPage size
size-LiesInPage size some_size small =
    let entry = entry_of lies_in_page 1025 size page_table (omega arith) in
    record {
      some_block = ground arith;
      bits = ground arith;
      room = ground arith;
      inside = λ k below. block_in_page (map_bits size) (block_size size) k (ground arith) below;
    }
