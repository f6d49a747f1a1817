-- ===== src/Region.antt =====
-- The page allocator of kernel/base/mem/region.c, over a bitmap with a bit for each page. The page
-- tables are the paging code's: `map_page` and `map_pages` enter as functions on its state `P`,
-- and an address stands for what they are called with.
pub mod Bits
pub mod Runs
pub mod Search
pub mod Alloc
pub mod Loop
pub mod Free
mod Tests
use Prim.Native.Nat.{bit_and, bit_or}
use helix_os.Common.{
  ℕ, zero, suc, ◌+◌, ◌-◌, ◌*◌, ◌/◌, ◌%◌, ◌^◌, Bool, true, false, not, Option, none, some, List, ltb,
  leb, ◌==◌, if◌then◌else◌, ◌+w◌, ◌-w◌, ◌*w◌, get_elem?, set, ◌>>=◌,
}

abbrev pub page_size : ℕ
page_size = 0x1000

-- The fields of `region_t` that the allocator uses; `bitmap` is the array at `data`, and
-- `extra_data` is the byte of it at which a search begins.
pub record Region : Type 0 where
  pub addr : ℕ
  pub bitmap : List ℕ
  pub pages : ℕ
  pub extra_data : ℕ

abbrev pub bit_of : ℕ → ℕ → Bool
bit_of byte k = not (bit_and byte (2 ^ k) == 0)

-- `none` is an access outside the bitmap, here and below.
unfoldable pub bitmap_get : List ℕ → ℕ → Option Bool
bitmap_get map index = do byte ← get_elem? map (index / 8); some (bit_of byte (index % 8))

unfoldable pub bitmap_set : List ℕ → ℕ → Option (List ℕ)
bitmap_set map index = do
  byte ← get_elem? map (index / 8)
  some (set map (index / 8) (bit_or byte (2 ^ (index % 8))))

-- `~(1 << k)`, cut to the byte that it is combined with.
unfoldable pub bitmap_unset : List ℕ → ℕ → Option (List ℕ)
bitmap_unset map index = do
  byte ← get_elem? map (index / 8)
  some (set map (index / 8) (bit_and byte (255 - 2 ^ (index % 8))))

-- `for ( ; bitmap_get( bitmap, first_free ); first_free++ );`
pub find_bit : ℕ → List ℕ → ℕ → Option ℕ
find_bit zero map index = none
find_bit (suc fuel) map index =
    let rest = find_bit fuel map (index + 1) in
    bitmap_get map index >>= λ taken. if taken then rest else some index

-- `for ( k = 0; k < n && is_free; k++ )`; the first argument is `n - k`.
pub is_free_run : ℕ → List ℕ → ℕ → Option Bool
is_free_run zero map index = some true
is_free_run (suc left) map index =
    let rest = is_free_run left map (index + 1) in
    bitmap_get map index >>= λ taken. if taken then some false else rest

pub set_run : ℕ → List ℕ → ℕ → Option (List ℕ)
set_run zero map index = some map
set_run (suc left) map index = bitmap_set map index >>= λ map'. set_run left map' (index + 1)

abbrev pub address : Region → ℕ → ℕ
address region page = region.addr +w (page_size *w page)

-- Whether the run that begins at a free bit is free: the test is left out for a single page.
pub run_free : ℕ → List ℕ → ℕ → Option Bool
run_free n map first_free = if ltb 1 n then is_free_run n map first_free else some true

-- `if ( !set_index ) region->extra_data = i;`
pub hint_at : Bool → ℕ → Region → Region
hint_at true i region = region
hint_at false i region = record region { extra_data = i }

module _ {P : Type 0} (map_page : P → ℕ → P) (map_pages : P → ℕ → ℕ → P) where
  -- What is done with a run of `n` free bits that begins at `page`.
  pub take_run : ℕ → P → Region → ℕ → Option (Option ℕ × Region × P)
  take_run n paging region page =
      if ltb 1 n
      then (set_run n region.bitmap page >>= λ map. some (
        some (address region page),
        record region { bitmap = map },
        map_pages paging (address region page) (address region (page + n)),
      ))
      else (bitmap_set region.bitmap page >>= λ map. some (
        some (address region page),
        record region { bitmap = map },
        map_page paging (address region page),
      ))

  -- The loop of `bitmap_region_alloc_page`; the second argument is `pages - i`.
  pub alloc_loop : ℕ → ℕ → P → Region → ℕ → Bool → Option (Option ℕ × Region × P)
  alloc_loop n zero paging region i set_index = some (none, region, paging)
  alloc_loop n (suc left) paging region i set_index =
      let full = alloc_loop n left paging region (i + 1) set_index in
      let hinted = hint_at set_index i region in
      let rest = alloc_loop n left paging hinted (i + 1) true in
      get_elem? region.bitmap i >>= λ byte.
      if bit_and byte 0xff == 0xff
      then full
      else (find_bit 8 region.bitmap (i * 8) >>= λ first_free.
          run_free n region.bitmap first_free >>= λ is_free.
          if is_free then take_run n paging hinted first_free else rest)

  pub bitmap_region_alloc_page : P → Region → ℕ → Option (Option ℕ × Region × P)
  bitmap_region_alloc_page paging region n =
      alloc_loop n (region.pages - region.extra_data) paging region region.extra_data false

-- The source calls `index % 8` the position of the bit's byte, and compares the hint with that.
pub lower_hint : ℕ → ℕ → ℕ
lower_hint bytepos hint = if leb bytepos hint then bytepos else hint

pub bitmap_region_free_page : {P : Type 0} → (P → ℕ → P) → P → Region → ℕ → Option (Region × P)
bitmap_region_free_page free_page paging region ptr =
    let index = (ptr -w region.addr) / page_size in
    bitmap_unset region.bitmap index >>= λ map. some (
      record region { bitmap = map; extra_data = lower_hint (index % 8) region.extra_data },
      free_page paging ptr,
    )
