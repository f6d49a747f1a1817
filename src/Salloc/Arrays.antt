-- ===== src/Salloc/Arrays.antt =====
-- `sheap_realloc` of an array, as its caller sees it.
use Prim.Native.Nat.{min}
use helix_os.Common.{
  ℕ, zero, suc, ◌+◌, ◌-◌, ◌*◌, ◌/◌, ◌<◌, ◌≡◌, refl, ◌∙◌, true, none, some, List, [], ◌∷◌, arith,
  ltb, leb, ◌==◌, if◌then◌else◌, get_or, take, length, ◌*w◌,
}
use helix_os.Common.Tables.{table_holds, entry_of}
use helix_os.Salloc.{
  page_size, min_size, class_of, block_size, mapped_pages, sheap_valid_denom, next_class, map_bits,
}

-- The bytes of the block that `sheap_alloc` returns for a size: those of a block of the cache, or those
-- behind the length word of the pages.
pub room_of : ℕ → ℕ
room_of size =
    if ltb size 1024
    then (elim (class_of size) [ none ↦ 0 | some bits ↦ block_size (min_size * bits) ])
    else mapped_pages size * page_size - 4

-- `n` places, those of `xs` first; the others hold what the memory did.
pub resize : (ℕ → ℕ) → List ℕ → ℕ → List ℕ
resize fill xs zero = []
resize fill [] (suc n) = fill n ∷ resize fill [] n
resize fill (x ∷ xs) (suc n) = x ∷ resize fill xs n

-- The first word of an array of bytes or of words.
pub first_word : ℕ → List ℕ → ℕ
first_word width xs =
    if width == 4
    then get_or xs 0 0
    else get_or xs 0 0 + get_or xs 1 0 * 0x100 + get_or xs 2 0 * 0x10000 + get_or xs 3 0 * 0x1000000

-- `krealloc` of an array of `width` bytes a place, for `n` places: as many of them as the block has
-- room for. Of a block in pages, `mapped_alloc_size` takes the first word of the data for the size to
-- copy. `fill` is what the memory of the new block held.
pub krealloc : ℕ → (ℕ → ℕ) → List ℕ → ℕ → List ℕ
krealloc width fill xs n =
    resize fill (if ltb (length xs * width) 1024 then xs else take (first_word width xs / width) xs)
      (min n (room_of (n *w width) / width))

length-resize : (fill : ℕ → ℕ) (xs : List ℕ) (n : ℕ) → length (resize fill xs n) ≡ n
unfolding resize
length-resize fill xs zero = refl
length-resize fill [] (suc n) = omega (arith, length-resize fill [] n)
length-resize fill (x ∷ xs) (suc n) = omega (arith, length-resize fill xs n)

resize_keeps :
    (fill : ℕ → ℕ) (xs : List ℕ) (n i : ℕ)
    → i < length xs
    → i < n
    → get_or (resize fill xs n) i 0 ≡ get_or xs i 0
unfolding resize
resize_keeps fill [] n i lo hi = absurd (omega arith)
resize_keeps fill (x ∷ xs) zero i lo hi = absurd (omega arith)
resize_keeps fill (x ∷ xs) (suc n) zero lo hi = refl
resize_keeps fill (x ∷ xs) (suc n) (suc i) lo hi =
    resize_keeps fill xs n i (omega arith) (omega arith)

-- The table of the sizes of fewer than 256 words.
room_table : table_holds (λ n. leb n (room_of (n * 4) / 4)) 256 ≡ true
unfolding table_holds room_of class_of next_class sheap_valid_denom map_bits block_size mapped_pages
room_table = refl

pub room_four : room_of 4 ≡ 64
unfolding room_of class_of next_class sheap_valid_denom map_bits block_size
room_four = refl

module _ (fill : ℕ → ℕ) (xs : List ℕ) (n : ℕ) (few : n < 256) where
  plenty : min n (room_of (n *w 4) / 4) ≡ n
  plenty =
      let size : n *w 4 ≡ n * 4 = omega arith in
      let fits = entry_of (λ k. leb k (room_of (k * 4) / 4)) 256 n room_table few in
      rw size (ground arith)

  -- Fewer than 256 words are all there, and old ones of fewer than 256 are kept.
  pub length-krealloc : length (krealloc 4 fill xs n) ≡ n
  unfolding krealloc
  length-krealloc = length-resize fill _ _ ∙ plenty

  pub krealloc_keeps :
      (i : ℕ)
      → length xs < 256
      → i < length xs
      → i < n
      → get_or (krealloc 4 fill xs n) i 0 ≡ get_or xs i 0
  unfolding krealloc
  krealloc_keeps i old lo hi =
      let slab : ltb (length xs * 4) 1024 ≡ true = ground arith in
      rw slab (resize_keeps fill xs _ i lo (omega (arith, plenty)))
