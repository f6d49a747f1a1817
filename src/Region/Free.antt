-- ===== src/Region/Free.antt =====
-- `bitmap_region_free_page`, and the release of a page that a call took.
use helix_os.Common.{
  ℕ, ◌*◌, ◌/◌, ◌%◌, ◌^◌, ◌≤◌, ◌<◌, ◌≡◌, refl, sym, ap, ◌∙◌, true, false, some, List, arith, length,
  ◌+w◌, ◌-w◌, ◌*w◌, Bool-cases, inl, inr,
}
use helix_os.Common.Bytes.{within}
use helix_os.Region.{
  Region, address, page_size, bitmap_get, lower_hint, bitmap_region_alloc_page,
  bitmap_region_free_page,
}
use helix_os.Region.Bits.{AllBytes}
use helix_os.Region.Runs.{Marked, bitmap_unset-Marked}
use helix_os.Region.Loop.{Available, bitmap_region_alloc_page-Takes}

-- The page of an address is found again.
page-address :
    (addr page : ℕ)
    → addr < 2 ^ 32
    → page * 0x1000 < 2 ^ 32
    → ((addr +w (0x1000 *w page)) -w addr) / 0x1000 ≡ page
page-address addr page ha hp = ground arith

module _ {P : Type 0} (free_page : P → ℕ → P) where
  -- What a call leaves that releases the page at `ptr`.
  pub record Released (paging : P) (region : Region) (page ptr : ℕ) (region' : Region) (paging' : P)
      : Type 0 where
    pub now_free : Marked false page 1 region.bitmap region'.bitmap
    pub same_addr : region'.addr ≡ region.addr
    pub same_pages : region'.pages ≡ region.pages
    pub unmapped : paging' ≡ free_page paging ptr
    pub hint : region'.extra_data ≡ lower_hint (page % 8) region.extra_data

  pub bitmap_region_free_page-Released :
      (paging : P) (region : Region) (page : ℕ)
      → AllBytes region.bitmap
      → region.addr < 2 ^ 32
      → page * page_size < 2 ^ 32
      → page < 8 * length region.bitmap
      → (region' : Region) × (paging' : P) × (bitmap_region_free_page free_page paging region
            (address region page)
          ≡ some (region', paging'))
        × Released paging region page (address region page) region' paging'
  unfolding bitmap_region_free_page
  bitmap_region_free_page-Released paging region page bytes low small inside =
      let at = page-address region.addr page low small in
      let (map', e, marked) = bitmap_unset-Marked region.bitmap bytes page inside in
      (
        record region { bitmap = map'; extra_data = lower_hint (page % 8) region.extra_data },
        free_page paging (address region page),
        rw (at, e) refl,
        record {
          now_free = marked;
          same_addr = refl;
          same_pages = refl;
          unmapped = refl;
          hint = refl;
        },
      )

-- A bit that was free, set and then cleared.
restored :
    (map map1 map2 : List ℕ) (k : ℕ)
    → ((i : ℕ) → within k 1 i ≡ true → bitmap_get map i ≡ some false)
    → Marked true k 1 map map1
    → Marked false k 1 map1 map2
    → (i : ℕ) → bitmap_get map2 i ≡ bitmap_get map i
restored map map1 map2 k free set cleared i = elim (Bool-cases (within k 1 i)) [
  | inl here ↦ cleared.inside i here ∙ sym (free i here)
  | inr elsewhere ↦ cleared.outside i elsewhere ∙ set.outside i elsewhere
]

module _ {P : Type 0} (map_page : P → ℕ → P) (map_pages : P → ℕ → ℕ → P)
    (free_page : P → ℕ → P) where
  -- A page that a call for one page took, released by its pointer, leaves every bit of the bitmap as
  -- it was before the two calls, if the region lies below 2 ^ 32 and has a page to take.
  pub free_page-alloc_page :
      (paging : P) (region : Region) (page : ℕ)
      → AllBytes region.bitmap
      → Available 1 region.bitmap page
      → region.extra_data ≤ page / 8
      → page / 8 < region.pages
      → region.addr < 2 ^ 32
      → 8 * length region.bitmap * page_size ≤ 2 ^ 32
      → (ptr : ℕ) × (taken : Region) × (paging' : P) × (released : Region) × (paging'' : P)
        × (bitmap_region_alloc_page map_page map_pages paging region 1
            ≡ some (some ptr, taken, paging'))
        × (bitmap_region_free_page free_page paging' taken ptr ≡ some (released, paging''))
        × ((i : ℕ) → bitmap_get released.bitmap i ≡ bitmap_get region.bitmap i)
  free_page-alloc_page paging region page bytes here lo hi low small =
      let (k, ptr, taken, paging', e, took) =
        bitmap_region_alloc_page-Takes map_page map_pages 1 paging page region bytes here lo hi in
      let at : ptr ≡ address taken k =
        took.pointer ∙ ap (λ a. a +w (page_size *w k)) (sym took.same_addr) in
      let len : length taken.bitmap ≡ length region.bitmap = took.now_taken.same_length in
      let (released, paging'', e', gone) =
        bitmap_region_free_page-Released free_page paging' taken k took.now_taken.all_bytes
          (omega (arith, took.same_addr)) (omega (arith, took.in_map))
          (omega (arith, took.in_map)) in
      (
        ptr,
        taken,
        paging',
        released,
        paging'',
        e,
        ap (bitmap_region_free_page free_page paging' taken) at ∙ e',
        restored region.bitmap taken.bitmap released.bitmap k (took.were_free) took.now_taken
            gone.now_free,
      )

-- A page whose byte lies below the search hint, released, is not found again where its number modulo
-- 8 exceeds the number of its byte: the next search begins above that byte.
pub free_page_hides :
    {P : Type 0} (free_page : P → ℕ → P) (paging : P) (region : Region) (page : ℕ)
    → AllBytes region.bitmap
    → region.addr < 2 ^ 32
    → page * page_size < 2 ^ 32
    → page < 8 * length region.bitmap
    → page / 8 < region.extra_data
    → page / 8 < page % 8
    → (region' : Region) × (paging' : P) × (bitmap_region_free_page free_page paging region
          (address region page)
        ≡ some (region', paging'))
      × (bitmap_get region'.bitmap page ≡ some false)
      × (page / 8 < region'.extra_data)
unfolding lower_hint
free_page_hides free_page paging region page bytes low small inside above more =
    let (region', paging', e, released) =
      bitmap_region_free_page-Released free_page paging region page bytes low small inside in
    (
      region',
      paging',
      e,
      released.now_free.inside page (ground arith),
      ground (arith, released.hint),
    )
