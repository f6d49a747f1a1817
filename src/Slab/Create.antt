-- ===== src/Slab/Create.antt =====
-- `new_slab_cache_at_addr`: a cache with its first block of pages.
use helix_os.Common.{
  ℕ, zero, suc, ◌+◌, ◌-◌, ◌*◌, ◌%◌, ◌^◌, ◌≤◌, ◌<◌, ◌≡◌, ◌≢◌, refl, sym, ap, ◌∙◌, true, false, none,
  some, arith, ◌==◌, if◌then◌else◌, inl, inr, ◌+w◌,
}
use helix_os.Salloc.{map_bits, block_size}
use helix_os.Salloc.Layout.{size-LiesInPage}
use helix_os.Slab.{
  Pool, Slab, Calls, free_list, partial_list, full_list, head_of, slab_cache_add_pages,
  slab_cache_add_page_block, max_free_pages, new_slab_cache_at_addr, slab_alloc,
}
use helix_os.Slab.Lists.{Heads}
use helix_os.Slab.Fresh.{IsCache, WasTaken, slab_alloc-WasTaken}
use helix_os.Slab.Setup.{slab_cache_add_page-Added, Added-IsCache}

-- `left` pages from `cur` on joined the cache, each at the head of its free slabs.
record Grown {W : Type 0} (pool pool' : Pool W) (left cur : ℕ) : Type 0 where
  pub free : pool'.cache.free ≡ (if left == 0 then pool.cache.free else cur + (left - 1) * 4096)
  pub partial : pool'.cache.partial ≡ pool.cache.partial
  pub full : pool'.cache.full ≡ pool.cache.full
  pub map_bits : pool'.cache.map_bits ≡ pool.cache.map_bits
  pub block_size : pool'.cache.block_size ≡ pool.cache.block_size
  pub free_pages : pool'.cache.free_pages ≡ (pool.cache.free_pages + left) % 2 ^ 32

last_page :
    (left cur old : ℕ)
    → (if left == 0 then cur else (cur + 4096) + (left - 1) * 4096)
      ≡ (if suc left == 0 then old else cur + (suc left - 1) * 4096)
last_page zero cur old = ground arith
last_page (suc left) cur old = ground arith

module _ {W : Type 0} (calls : Calls W) where
  slab_cache_add_pages-Grown :
      (left : ℕ) (pool : Pool W) (cur : ℕ)
      → IsCache pool
      → cur ≢ 0
      → cur + left * 4096 < 2 ^ 32
      → pool.cache.free_pages < 2 ^ 32
      → ((a : ℕ) (slab : Slab) → pool.slabs a ≡ some slab → a < cur)
      → (pool' : Pool W) × (slab_cache_add_pages calls left pool cur ≡ some pool')
        × IsCache pool'
        × Grown pool pool' left cur
  unfolding slab_cache_add_pages
  slab_cache_add_pages-Grown zero pool cur c ne room few below = (
    pool,
    refl,
    c,
    record {
      free = refl;
      partial = refl;
      full = refl;
      map_bits = refl;
      block_size = refl;
      free_pages = omega arith;
    },
  )
  slab_cache_add_pages-Grown (suc left) pool cur c ne room few below =
      let fresh : (slab : Slab) → pool.slabs cur ≡ some slab → false ≡ true =
        λ slab at. let no = below cur slab at in absurd (omega arith) in
      let (pool1, e1, added) = slab_cache_add_page-Added pool c cur calls ne fresh in
      let c1 = Added-IsCache pool c cur pool1 ne (omega arith) fresh added in
      let step : cur +w 4096 ≡ cur + 4096 = omega arith in
      let count = added.free_pages in
      let below1 : (a : ℕ) (slab : Slab) → pool1.slabs a ≡ some slab → a < cur + 4096 = λ a slab at.
        elim (added.origin a slab at) [
          | inl (here, m, l, n) ↦ omega arith
          | inr (old, was, m, l, n) ↦ let h = below a old was in omega arith
        ] in
      let (pool2, e2, c2, grown) =
        slab_cache_add_pages-Grown left pool1 (cur + 4096) c1 (omega arith) (omega arith)
          (omega arith) below1 in
      let count2 = grown.free_pages in
      (
        pool2,
        rw e1 (ap (slab_cache_add_pages calls left pool1) step ∙ e2),
        c2,
        record {
          free = grown.free ∙ (rw added.free (last_page left cur pool.cache.free));
          partial = grown.partial ∙ added.partial;
          full = grown.full ∙ added.full;
          map_bits = grown.map_bits ∙ added.map_bits;
          block_size = grown.block_size ∙ added.block_size;
          free_pages = omega arith;
        },
      )

-- A cache that has no page yet.
blank : {W : Type 0} → Pool W → ℕ → W → Pool W
blank pool size world = record pool {
  cache = record {
    free = 0;
    partial = 0;
    full = 0;
    obj_size = size;
    pages_alloced = 0;
    map_bits = map_bits size;
    block_size = block_size size;
    free_pages = 0;
    max_free = max_free_pages;
  };
  world = world;
}

module _ {W : Type 0} (pool : Pool W) (none_yet : (a : ℕ) → pool.slabs a ≡ none) where
  no_header : (a : ℕ) (slab : Slab) → pool.slabs a ≡ some slab → false ≡ true
  no_header a slab at = let both : none ≡ some slab = sym (none_yet a) ∙ at in absurd cc

  blank-Heads : (size : ℕ) (world : W) → Heads (blank pool size world)
  unfolding blank head_of
  blank-Heads size world free_list = inl refl
  blank-Heads size world partial_list = inl refl
  blank-Heads size world full_list = inl refl

  blank-IsCache : (size : ℕ) (world : W) → 0 < size → size ≤ 1024 → IsCache (blank pool size world)
  unfolding blank
  blank-IsCache size world some_size small =
      let lies = size-LiesInPage size some_size small in
      let room = lies.room in
      record {
        heads = blank-Heads size world;
        null = none_yet 0;
        linked = λ a slab at. let no = no_header a slab at in absurd cc;
        partial_left = λ slab at. let no = no_header 0 slab at in absurd cc;
        free_empty = λ slab at. let no = no_header 0 slab at in absurd cc;
        pages = λ a slab at. let no = no_header a slab at in absurd cc;
        some_block = lies.some_block;
        some_size = omega arith;
        bits = lies.bits;
        blocks = lies.inside;
      }

  -- `new_slab_cache_at_addr` for objects of 1 to 1024 bytes, with no slab of the cache in memory yet, if
  -- the region gives four pages, not at NULL, that end below 2 ^ 32. The heads of the new cache's lists
  -- and the links of its headers are NULL or lead to headers, its partial and full lists are empty, its
  -- first free slab is the last of the four pages, has every block free but the header's, and the count
  -- of free pages is 4; a block is at least as large as an object, and the blocks, two at least, lie in
  -- their page. So the conditions of `slab_alloc` hold, which then returns a block, not NULL, that was
  -- not in use and now is, while the use of no other block changed.
  pub new_slab_cache_at_addr-IsCache :
      (calls : Calls W) (size buf : ℕ) (world : W)
      → 0 < size
      → size ≤ 1024
      → calls.alloc_page 4 pool.world ≡ (buf, world)
      → buf ≢ 0
      → buf + 4 * 4096 < 2 ^ 32
      → (pool' : Pool W) × (new_slab_cache_at_addr calls pool size ≡ some pool')
        × IsCache pool'
        × (pool'.cache.free ≡ buf + 3 * 4096)
        × (pool'.cache.partial ≡ 0)
        × (pool'.cache.full ≡ 0)
        × (pool'.cache.free_pages ≡ 4)
        × (size ≤ pool'.cache.block_size)
        × ((ptr : ℕ) × (pool'' : Pool W) × (slab_alloc calls pool' ≡ some (ptr, pool''))
            × (ptr ≢ 0)
            × WasTaken pool' pool'' ptr)
  unfolding new_slab_cache_at_addr slab_cache_add_page_block blank
  new_slab_cache_at_addr-IsCache calls size buf world some_size small given ne room =
      let apart : (buf == 0) ≡ false = ground arith in
      let (pool', e, c, grown) =
        slab_cache_add_pages-Grown calls 4 (blank pool size world) buf
          (blank-IsCache size world some_size small) ne room (omega arith)
          (λ a slab at. let no = no_header a slab at in absurd cc) in
      let first = grown.free in
      let not_null : pool'.cache.free ≢ 0 = λ z. omega arith in
      let lies = size-LiesInPage size some_size small in
      (
        pool',
        rw (given, apart) e,
        c,
        first,
        grown.partial,
        grown.full,
        grown.free_pages,
        rw grown.block_size lies.room,
        slab_alloc-WasTaken pool' c calls (inr not_null),
      )
