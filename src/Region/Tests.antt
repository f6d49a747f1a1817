-- ===== src/Region/Tests.antt =====
-- Runs of the page allocator of kernel/base/mem/region.c, and its theorems at a small region.
use helix_os.Common.{
  ℕ, zero, suc, ◌+◌, ◌≤◌, ◌<◌, ◌≡◌, refl, true, false, none, some, List, [], ◌∷◌, arith, ℕ_discrete,
}
use helix_os.Common.Bytes.{within}
use helix_os.Region.{
  Region, page_size, bitmap_get, bitmap_set, find_bit, is_free_run, run_free, hint_at, set_run,
  take_run, alloc_loop, bitmap_region_alloc_page, bitmap_region_free_page,
}
use helix_os.Region.Bits.{AllBytes}
use helix_os.Region.Alloc.{Takes}
use helix_os.Region.Loop.{Available, bitmap_region_alloc_page-Takes}
use helix_os.Region.Free.{free_page-alloc_page}

-- The paging code, as a log of the ranges that it was asked to map, and of the pages to free.
abbrev Log : Type 0
Log = List (ℕ × ℕ)

abbrev map_page : Log → ℕ → Log
map_page log start = (start, start + page_size) ∷ log

abbrev map_pages : Log → ℕ → ℕ → Log
map_pages log start end = (start, end) ∷ log

abbrev free_page : Log → ℕ → Log
free_page log start = (start, 0) ∷ log

-- Pages 0 to 10 and page 14 are taken.
abbrev small : Region
small = record { addr = 0x10000000; bitmap = 255 ∷ 71 ∷ 0 ∷ 0 ∷ []; pages = 32; extra_data = 0 }

-- Three pages fit at page 11; the hint moves to byte 1.
takes_three :
    bitmap_region_alloc_page map_page map_pages [] small 3
    ≡ some (
      some 0x1000b000,
      record small { bitmap = 255 ∷ 127 ∷ 0 ∷ 0 ∷ []; extra_data = 1 },
      (0x1000b000, 0x1000e000) ∷ [],
    )
unfolding bitmap_region_alloc_page alloc_loop take_run hint_at run_free is_free_run set_run find_bit
    bitmap_get bitmap_set
takes_three = refl

-- Four do not: the next byte is taken from its first bit on.
takes_four :
    bitmap_region_alloc_page map_page map_pages [] small 4
    ≡ some (
      some 0x10010000,
      record small { bitmap = 255 ∷ 71 ∷ 15 ∷ 0 ∷ []; extra_data = 1 },
      (0x10010000, 0x10014000) ∷ [],
    )
unfolding bitmap_region_alloc_page alloc_loop take_run hint_at run_free is_free_run set_run find_bit
    bitmap_get bitmap_set
takes_four = refl

-- A search of a full region reads bytes outside its bitmap.
reads_outside :
    bitmap_region_alloc_page map_page map_pages []
      (record small { bitmap = 255 ∷ 255 ∷ 255 ∷ 255 ∷ [] })
      1
    ≡ none
unfolding bitmap_region_alloc_page alloc_loop take_run hint_at run_free is_free_run set_run find_bit
    bitmap_get bitmap_set
reads_outside = refl

small-AllBytes : AllBytes small.bitmap
small-AllBytes zero b e = ground arith
small-AllBytes (suc zero) b e = ground arith
small-AllBytes (suc (suc zero)) b e = ground arith
small-AllBytes (suc (suc (suc zero))) b e = ground arith
small-AllBytes (suc (suc (suc (suc i)))) b e = ground arith

taken_before : (j : ℕ) → 8 ≤ j → j < 11 → bitmap_get small.bitmap j ≡ some true
unfolding bitmap_get
taken_before j lo hi = elim (ℕ_discrete j 8) [
  | yes e ↦ rw e refl
  | no a ↦ elim (ℕ_discrete j 9) [
    | yes e ↦ rw e refl
    | no b ↦ let e : j ≡ 10 = omega arith in rw e refl
  ]
]

free_three : (i : ℕ) → within 11 3 i ≡ true → bitmap_get small.bitmap i ≡ some false
unfolding bitmap_get
free_three i h = elim (ℕ_discrete i 11) [
  | yes e ↦ rw e refl
  | no a ↦ elim (ℕ_discrete i 12) [
    | yes e ↦ rw e refl
    | no b ↦ let e : i ≡ 13 = ground arith in rw e refl
  ]
]

small-Available : Available 3 small.bitmap 11
small-Available = record { fits = omega arith; free = free_three; first = taken_before }

one-Available : Available 1 small.bitmap 11
one-Available = record {
  fits = omega arith;
  free = λ i h. free_three i (ground arith);
  first = taken_before;
}

bitmap_region_alloc_page-Takes_example :
    Takes map_page map_pages 3 [] small (bitmap_region_alloc_page map_page map_pages [] small 3)
bitmap_region_alloc_page-Takes_example =
    bitmap_region_alloc_page-Takes map_page map_pages 3 [] 11 small small-AllBytes small-Available
      (omega arith) (omega arith)

free_page-alloc_page_example :
    (ptr : ℕ) × (taken : Region) × (log : Log) × (released : Region) × (log' : Log)
    × (bitmap_region_alloc_page map_page map_pages [] small 1 ≡ some (some ptr, taken, log))
    × (bitmap_region_free_page free_page log taken ptr ≡ some (released, log'))
    × ((i : ℕ) → bitmap_get released.bitmap i ≡ bitmap_get small.bitmap i)
free_page-alloc_page_example =
    free_page-alloc_page map_page map_pages free_page [] small 11 small-AllBytes one-Available
      (omega arith) (omega arith) (omega arith) (omega arith)

-- The hint is at byte 1, as an earlier call leaves it.
abbrev hinted : Region
hinted = record small { extra_data = 1 }
