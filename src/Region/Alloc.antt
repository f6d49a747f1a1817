-- ===== src/Region/Alloc.antt =====
-- `bitmap_region_alloc_page`: what a call takes, and when it takes something.
use helix_os.Common.{
  ℕ, ◌+◌, ◌*◌, ◌≤◌, ◌<◌, ◌≡◌, refl, ap, ◌∙◌, Bool, true, false, Option, some, List, arith, ltb,
  if◌then◌else◌, length, Bool-cases, inl, inr,
}
use helix_os.Region.{Region, address, bitmap_get, run_free, take_run}
use helix_os.Region.Bits.{AllBytes}
use helix_os.Region.Runs.{Marked, bitmap_set-Marked, set_run-Marked}
use helix_os.Region.Search.{Free, is_free_run_sound, is_free_run-Free}

-- The pages that a call for `n` takes: one where it is asked for none.
abbrev pub pages_of : ℕ → ℕ
pages_of n = if ltb 1 n then n else 1

pub run_free_sound :
    (n : ℕ) (map : List ℕ) (page : ℕ)
    → bitmap_get map page ≡ some false
    → page + pages_of n ≤ 8 * length map
    → (free : Bool) × (run_free n map page ≡ some free) × (free ≡ true → Free map page (pages_of n))
unfolding run_free
run_free_sound n map page open_bit fits = elim (Bool-cases (ltb 1 n)) [
  | inl many ↦
      let (free, e, all) = is_free_run_sound n map page (ground arith) in
      (free, rw many e, rw many all)
  | inr one ↦ (
    true,
    rw one refl,
    λ e.
        rw one (λ i h. (let same : i ≡ page = ground arith in ap (bitmap_get map) same ∙ open_bit)),
  )
]

pub run_free-Free :
    (n : ℕ) (map : List ℕ) (page : ℕ) → Free map page (pages_of n) → run_free n map page ≡ some true
unfolding run_free
run_free-Free n map page free = elim (Bool-cases (ltb 1 n)) [
  | inl many ↦ rw many (is_free_run-Free n map page (λ i h. free i (rw many h)))
  | inr one ↦ rw one refl
]

module _ {P : Type 0} (map_page : P → ℕ → P) (map_pages : P → ℕ → ℕ → P) (n : ℕ) (paging : P) where
  -- What a call leaves that takes the pages from `page` on and returns `ptr`.
  pub record Took (region : Region) (page ptr : ℕ) (region' : Region) (paging' : P) : Type 0 where
    pub in_map : page + pages_of n ≤ 8 * length region.bitmap
    -- The pages were free; they are taken, and no other page changes.
    pub were_free : Free region.bitmap page (pages_of n)
    pub now_taken : Marked true page (pages_of n) region.bitmap region'.bitmap
    pub pointer : ptr ≡ address region page
    pub same_addr : region'.addr ≡ region.addr
    pub same_pages : region'.pages ≡ region.pages
    -- The paging code is asked to map just these pages.
    pub one_mapped : n ≤ 1 → paging' ≡ map_page paging ptr
    pub run_mapped : 1 < n → paging' ≡ map_pages paging ptr (address region (page + n))

  abbrev pub Takes : Region → Option (Option ℕ × Region × P) → Type 0
  Takes region result =
      (page : ℕ) × (ptr : ℕ) × (region' : Region) × (paging' : P) × (result
        ≡ some (some ptr, region', paging'))
      × Took region page ptr region' paging'

  pub take_run-Takes :
      (region : Region) (page : ℕ)
      → AllBytes region.bitmap
      → page + pages_of n ≤ 8 * length region.bitmap
      → Free region.bitmap page (pages_of n)
      → Takes region (take_run map_page map_pages n paging region page)
  unfolding take_run
  take_run-Takes region page bytes fits free = elim (Bool-cases (ltb 1 n)) [
    | inl many ↦
        let (map', e, marked) = set_run-Marked n region.bitmap bytes page (ground arith) in
        (
          page,
          address region page,
          record region { bitmap = map' },
          map_pages paging (address region page) (address region (page + n)),
          rw (many, e) refl,
          record {
            in_map = fits;
            were_free = free;
            now_taken = rw many marked;
            pointer = refl;
            same_addr = refl;
            same_pages = refl;
            one_mapped = λ h. absurd (ground arith);
            run_mapped = λ h. refl;
          },
        )
    | inr one ↦
        let (map', e, marked) = bitmap_set-Marked region.bitmap bytes page (ground arith) in
        (
          page,
          address region page,
          record region { bitmap = map' },
          map_page paging (address region page),
          rw (one, e) refl,
          record {
            in_map = fits;
            were_free = free;
            now_taken = rw one marked;
            pointer = refl;
            same_addr = refl;
            same_pages = refl;
            one_mapped = λ h. refl;
            run_mapped = λ h. absurd (ground arith);
          },
        )
  ]
