-- ===== src/Region/Loop.antt =====
-- The loop of `bitmap_region_alloc_page` over the bytes of the bitmap.
use Prim.Native.Nat.{bit_and}
use mathlib.Core.Path.{subst}
use helix_os.Common.{
  ℕ, zero, suc, ◌+◌, ◌-◌, ◌*◌, ◌/◌, ◌%◌, ◌≤◌, ◌<◌, ◌≡◌, ◌≢◌, refl, sym, ap, ◌∙◌, Bool, true, false,
  Option, some, List, arith, ltb, ◌==◌, get_elem?, length, Bool-cases, inl, inr, ℕ_discrete,
}
use helix_os.Region.{
  Region, bit_of, bitmap_get, find_bit, run_free, hint_at, take_run, alloc_loop,
  bitmap_region_alloc_page,
}
use helix_os.Region.Bits.{AllBytes}
use helix_os.Region.Runs.{byte_at, get-byte}
use helix_os.Region.Search.{Free, free_bit, not_full, find_bit-first}
use helix_os.Region.Alloc.{pages_of, Takes, run_free_sound, run_free-Free, take_run-Takes}

some-eq : (a b : Bool) → some a ≡ some b → a ≡ b
some-eq a b e = cc

true_ne : true ≢ false
true_ne e = cc

-- In a byte that is not full, the inner loop finds its first free bit.
first_in_byte :
    (map : List ℕ)
    → AllBytes map
    → (i byte : ℕ) → i < length map
    → get_elem? map i ≡ some byte
    → (bit_and byte 0xff == 0xff) ≡ false
    → (q : ℕ) × (find_bit 8 map (i * 8) ≡ some q)
      × (q / 8 ≡ i)
      × (bitmap_get map q ≡ some false)
      × ((j : ℕ) → i * 8 ≤ j → j < q → bitmap_get map j ≡ some true)
first_in_byte map bytes i byte inside here open_byte =
    let (k, hk, open_bit) = free_bit byte (bytes i byte here) open_byte in
    let w : (i * 8 + k) / 8 ≡ i = omega arith in
    let r : (i * 8 + k) % 8 ≡ k = omega arith in
    let free : bitmap_get map (i * 8 + k) ≡ some false =
      get-byte map (i * 8 + k) byte (ap (get_elem? map) w ∙ here)
      ∙ ap some (ap (bit_of byte) r ∙ open_bit) in
    let (q, found, lo, hi, free_q, before) =
      find_bit-first 8 map (i * 8) (i * 8 + k) (omega arith) (omega arith) (omega arith) free in
    (q, found, omega arith, free_q, before)

-- Two first free bits of a byte are the same.
first_unique :
    (map : List ℕ) (i p q : ℕ)
    → p / 8 ≡ i
    → q / 8 ≡ i
    → bitmap_get map p ≡ some false
    → bitmap_get map q ≡ some false
    → ((j : ℕ) → i * 8 ≤ j → j < p → bitmap_get map j ≡ some true)
    → ((j : ℕ) → i * 8 ≤ j → j < q → bitmap_get map j ≡ some true)
    → q ≡ p
first_unique map i p q hp hq fp fq bp bq = elim (Bool-cases (ltb q p)) [
  | inl lt ↦ absurd (differ (sym (bp q (omega arith) (ground arith)) ∙ fq))
  | inr ge ↦ elim (Bool-cases (ltb p q)) [
    | inl lt ↦ absurd (differ (sym (bq p (omega arith) (ground arith)) ∙ fp))
    | inr le ↦ ground arith
  ]
]
  where
    differ : some true ≢ some false
    differ e = cc

-- A run of pages that a call for `n` can take: it begins at the first free bit of its byte.
pub record Available (n : ℕ) (map : List ℕ) (page : ℕ) : Type 0 where
  pub fits : page + pages_of n ≤ 8 * length map
  pub free : Free map page (pages_of n)
  pub first : (j : ℕ) → page / 8 * 8 ≤ j → j < page → bitmap_get map j ≡ some true

module _ {P : Type 0} (map_page : P → ℕ → P) (map_pages : P → ℕ → ℕ → P) (n : ℕ) (paging : P) where
  abbrev loop : ℕ → Region → ℕ → Bool → Option (Option ℕ × Region × P)
  loop left region i set_index = alloc_loop map_page map_pages n left paging region i set_index

  module _ (left : ℕ) (region : Region) (i : ℕ) (set_index : Bool) (byte : ℕ)
      (here : get_elem? region.bitmap i ≡ some byte) where
    loop-full :
        (bit_and byte 0xff == 0xff) ≡ true
        → loop (suc left) region i set_index ≡ loop left region (i + 1) set_index
    unfolding alloc_loop
    loop-full full = rw (here, full) refl

    module _ (not_full : (bit_and byte 0xff == 0xff) ≡ false) (q : ℕ)
        (found : find_bit 8 region.bitmap (i * 8) ≡ some q) where
      loop-taken :
          run_free n region.bitmap q ≡ some false
          → loop (suc left) region i set_index ≡ loop left (hint_at set_index i region) (i + 1) true
      unfolding alloc_loop
      loop-taken taken = rw (here, not_full, found, taken) refl

      loop-free :
          run_free n region.bitmap q ≡ some true
          → loop (suc left) region i set_index
            ≡ take_run map_page map_pages n paging (hint_at set_index i region) q
      unfolding alloc_loop
      loop-free free = rw (here, not_full, found, free) refl

  -- The hint has no part in what a call takes.
  Takes-hint_at :
      (set_index : Bool) (i : ℕ) (region : Region) (result : Option (Option ℕ × Region × P))
      → Takes map_page map_pages n paging (hint_at set_index i region) result
      → Takes map_page map_pages n paging region result
  unfolding hint_at
  Takes-hint_at true i region result takes = takes
  Takes-hint_at false i region result (page, ptr, region', paging', e, t) = (
    page,
    ptr,
    region',
    paging',
    e,
    record {
      in_map = t.in_map;
      were_free = t.were_free;
      now_taken = t.now_taken;
      pointer = t.pointer;
      same_addr = t.same_addr;
      same_pages = t.same_pages;
      one_mapped = t.one_mapped;
      run_mapped = t.run_mapped;
    },
  )

  hint_at-bitmap :
      (set_index : Bool) (i : ℕ) (region : Region)
      → (hint_at set_index i region).bitmap ≡ region.bitmap
  unfolding hint_at
  hint_at-bitmap true i region = refl
  hint_at-bitmap false i region = refl

  hint_at-Available :
      (set_index : Bool) (i : ℕ) (region : Region) (page : ℕ)
      → Available n region.bitmap page
      → Available n (hint_at set_index i region).bitmap page
  hint_at-Available set_index i region page here = rw (hint_at-bitmap set_index i region) here

  hint_at-AllBytes :
      (set_index : Bool) (i : ℕ) (region : Region)
      → AllBytes region.bitmap
      → AllBytes (hint_at set_index i region).bitmap
  hint_at-AllBytes set_index i region bytes = rw (hint_at-bitmap set_index i region) bytes

  take_hinted :
      (set_index : Bool) (i : ℕ) (region : Region) (page : ℕ)
      → AllBytes region.bitmap
      → page + pages_of n ≤ 8 * length region.bitmap
      → Free region.bitmap page (pages_of n)
      → Takes map_page map_pages n paging region
          (take_run map_page map_pages n paging (hint_at set_index i region) page)
  unfolding hint_at
  take_hinted true i region page bytes fits free =
      take_run-Takes map_page map_pages n paging region page bytes fits free
  take_hinted false i region page bytes fits free = Takes-hint_at false i region _ (
      take_run-Takes map_page map_pages n paging (record region { extra_data = i }) page bytes fits
        free)

  module _ (page : ℕ) where
    -- The byte of an available page is not full.
    not_passed :
        (map : List ℕ)
        → AllBytes map
        → Available n map page
        → (byte : ℕ) → get_elem? map (page / 8) ≡ some byte
        → (bit_and byte 0xff == 0xff) ≡ false
    not_passed map bytes here byte e =
        not_full byte (page % 8) (bytes (page / 8) byte e) (omega arith)
          (some-eq _ _ (sym (get-byte map page byte e) ∙ here.free page (ground arith)))

    subst_Takes :
        (region : Region) {a b : Option (Option ℕ × Region × P)}
        → a ≡ b
        → Takes map_page map_pages n paging region a
        → Takes map_page map_pages n paging region b
    subst_Takes region p takes = subst (Takes map_page map_pages n paging region) p takes

    -- The round of the loop at a byte that is not full, given what the rest of the loop does.
    open_byte-Takes :
        (left : ℕ) (region : Region) (i : ℕ) (set_index : Bool)
        → AllBytes region.bitmap
        → Available n region.bitmap page
        → i ≤ page / 8
        → (byte : ℕ) → get_elem? region.bitmap i ≡ some byte
        → (bit_and byte 0xff == 0xff) ≡ false
        → (i ≢ page / 8
            → Takes map_page map_pages n paging region
                (loop left (hint_at set_index i region) (i + 1) true))
        → Takes map_page map_pages n paging region (loop (suc left) region i set_index)
    open_byte-Takes left region i set_index bytes here lo byte e open_byte rest =
        let map = region.bitmap in
        let size : 1 ≤ pages_of n = ground arith in
        let (q, found, hq, fq, bq) =
          first_in_byte map bytes i byte (omega (arith, here.fits)) e open_byte in
        let same_page : i ≡ page / 8 → q ≡ page = λ same.
          first_unique map i page q (sym same) hq (here.free page (ground arith)) fq
            (λ j a b. here.first j (omega arith) b) bq in
        let fits : q + pages_of n ≤ 8 * length map = elim (ℕ_discrete i (page / 8)) [
          | yes same ↦ omega (arith, here.fits, same_page same)
          | no other ↦ omega (arith, here.fits)
        ] in
        let (free, run, sound) = run_free_sound n map q fq fits in
        elim (Bool-cases free) [
          | inl good ↦
              subst_Takes region
                (sym
                  (loop-free left region i set_index byte e open_byte q found (run ∙ ap some good)))
                (take_hinted set_index i region q bytes fits (sound good))
          | inr bad ↦
              let other : i ≢ page / 8 = λ same.
                let all : Free map q (pages_of n) = λ j h. here.free j (rw (← same_page same) h) in
                true_ne (some-eq _ _ (sym (run_free-Free n map q all) ∙ run) ∙ bad) in
              subst_Takes region
                (sym
                  (loop-taken left region i set_index byte e open_byte q found (run ∙ ap some bad)))
                (rest other)
        ]

    alloc_loop-Takes :
        (left : ℕ) (region : Region) (i : ℕ) (set_index : Bool)
        → AllBytes region.bitmap
        → Available n region.bitmap page
        → i ≤ page / 8
        → page / 8 < i + left
        → Takes map_page map_pages n paging region (loop left region i set_index)
    alloc_loop-Takes zero region i set_index bytes here lo hi = absurd (omega arith)
    alloc_loop-Takes (suc left) region i set_index bytes here lo hi =
        let size : 1 ≤ pages_of n = ground arith in
        let (byte, e) = byte_at region.bitmap i (omega (arith, here.fits)) in
        elim (Bool-cases (bit_and byte 0xff == 0xff)) [
          | inl full ↦
              let ne : i ≢ page / 8 = λ same.
                let there = ap (get_elem? region.bitmap) (sym same) ∙ e in
                true_ne (sym full ∙ not_passed region.bitmap bytes here byte there) in
              subst_Takes region (sym (loop-full left region i set_index byte e full)) (
                alloc_loop-Takes left region (i + 1) set_index bytes here (omega arith)
                  (omega arith))
          | inr open_byte ↦
              open_byte-Takes left region i set_index bytes here lo byte e open_byte (λ other.
                Takes-hint_at set_index i region _ (
                  alloc_loop-Takes left (hint_at set_index i region) (i + 1) true
                    (hint_at-AllBytes set_index i region bytes)
                    (hint_at-Available set_index i region page here) (omega arith) (omega arith)))
        ]

    -- `bitmap_region_alloc_page` for `n` pages, over a bitmap of bytes, if from the hint on there is
    -- a run of free pages (one page for an `n` of 0) that begins at the first free bit of a byte and
    -- lies in the bitmap, returns: it takes a run of pages that were free, changes no other bit, asks
    -- the paging code to map just these pages, and hands out the address of the first.
    pub bitmap_region_alloc_page-Takes :
        (region : Region)
        → AllBytes region.bitmap
        → Available n region.bitmap page
        → region.extra_data ≤ page / 8
        → page / 8 < region.pages
        → Takes map_page map_pages n paging region
            (bitmap_region_alloc_page map_page map_pages paging region n)
    unfolding bitmap_region_alloc_page
    bitmap_region_alloc_page-Takes region bytes here lo hi =
        alloc_loop-Takes (region.pages - region.extra_data) region region.extra_data false bytes
          here lo (omega arith)
