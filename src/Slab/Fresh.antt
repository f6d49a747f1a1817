-- ===== src/Slab/Fresh.antt =====
-- `slab_alloc` hands out a block that was not in use.
use mathlib.Core.Path.{subst}
use helix_os.Common.{
  ℕ, zero, suc, ◌+◌, ◌*◌, ◌^◌, ◌≤◌, ◌<◌, ◌≡◌, ◌≢◌, ◌⊎◌, refl, sym, ap, ◌∙◌, true, false, Option,
  none, some, arith, ltb, ◌==◌, if◌then◌else◌, Bool-cases, inl, inr, ℕ_discrete, ◌+w◌, ◌-w◌, ◌*w◌,
}
use helix_os.Vfs.{update}
use helix_os.Slab.{
  Pool, Slab, SlabCache, SlabList, Calls, free_list, partial_list, full_list, head_of, set_slab,
  slab_cache_move_block, alloc_partial, alloc_free, alloc_round, slab_alloc, slab_alloc_loop,
  has_bit, set_bit, first_clear, map_size, is_full, is_partial,
}
use helix_os.Slab.Bits.{has_bit-set_bit, first_clear_lowest}
use helix_os.Slab.Lists.{Present, SameMaps, Heads, Present-update, slab_cache_move_block-SameMaps}

-- The heads of the lists and the links of the headers are NULL or lead to headers, the first partial
-- slab has a block left, the first free slab has none taken, and the blocks lie in their page.
pub record IsCache {W : Type 0} (pool : Pool W) : Type 0 where
  pub heads : Heads pool
  pub null : pool.slabs 0 ≡ none
  pub linked :
      (a : ℕ) (slab : Slab)
      → pool.slabs a ≡ some slab
      → Present pool.slabs slab.last × Present pool.slabs slab.next
  pub partial_left :
      (slab : Slab)
      → pool.slabs pool.cache.partial ≡ some slab
      → (has_bit slab.map 0 ≡ true)
        × ((k : ℕ) × (k < pool.cache.map_bits) × (has_bit slab.map k ≡ false))
  pub free_empty : (slab : Slab) → pool.slabs pool.cache.free ≡ some slab → slab.map ≡ 1
  pub pages : (a : ℕ) (slab : Slab) → pool.slabs a ≡ some slab → a + 4096 ≤ 2 ^ 32
  pub some_block : 2 ≤ pool.cache.map_bits
  pub some_size : 0 < pool.cache.block_size
  pub bits : pool.cache.map_bits ≤ 64
  pub blocks :
      (k : ℕ) → k < pool.cache.map_bits → k * pool.cache.block_size + pool.cache.block_size ≤ 4096

-- Block `index` of the slab at `page` was not in use and now is, at address `ptr`; no other block of any
-- slab changed.
pub record WasTaken {W : Type 0} (pool pool' : Pool W) (ptr : ℕ) : Type 0 where
  pub page : ℕ
  pub index : ℕ
  pub slab : Slab
  pub slab' : Slab
  pub before : pool.slabs page ≡ some slab
  pub after : pool'.slabs page ≡ some slab'
  pub address : ptr ≡ page + index * pool.cache.block_size
  pub behind : 0 < index
  pub inside : index < pool.cache.map_bits
  pub was_free : has_bit slab.map index ≡ false
  pub marked : (j : ℕ) → has_bit slab'.map j ≡ (if index == j then true else has_bit slab.map j)
  pub others :
      (a : ℕ) (other : Slab)
      → a ≢ page
      → pool.slabs a ≡ some other
      → (other' : Slab) × (pool'.slabs a ≡ some other') × (other'.map ≡ other.map)

after_header : (map i : ℕ) → has_bit map 0 ≡ true → has_bit map i ≡ false → 0 < i
after_header map zero header free = absurd (let f : true ≡ false = sym header ∙ free in cc)
after_header map (suc i) header free = omega arith

one_bit : has_bit 1 1 ≡ false
unfolding has_bit
one_bit = refl

-- The count of free pages is not a head.
count_heads :
    (slabs : ℕ → Option Slab) (cache : SlabCache) (n : ℕ)
    → ((l : SlabList) → Present slabs (head_of cache l))
    → (l : SlabList) → Present slabs (head_of (record cache { free_pages = n }) l)
unfolding head_of
count_heads slabs cache n h free_list = h free_list
count_heads slabs cache n h partial_list = h partial_list
count_heads slabs cache n h full_list = h full_list

module _ {W : Type 0} (pool : Pool W) (c : IsCache pool) where
  -- The header at `page` is written, with bit `index` set, and then slabs may move.
  taken-WasTaken :
      (page index : ℕ) (slab new : Slab) (middle pool' : Pool W)
      → pool.slabs page ≡ some slab
      → middle.slabs ≡ update pool.slabs page (some new)
      → SameMaps middle.slabs pool'.slabs
      → new.map ≡ set_bit slab.map index
      → 0 < index
      → index < pool.cache.map_bits
      → has_bit slab.map index ≡ false
      → WasTaken pool pool' (page + index * pool.cache.block_size)
  taken-WasTaken page index slab new middle pool' at written same set lo hi free =
      let self : (page == page) ≡ true = ground arith in
      let there : middle.slabs page ≡ some new = rw (written, self) refl in
      let (slab', at', m) = same page new there in
      record {
        page = page;
        index = index;
        slab = slab;
        slab' = slab';
        before = at;
        after = at';
        address = refl;
        behind = lo;
        inside = hi;
        was_free = free;
        marked = λ j. ap (λ x. has_bit x j) (m ∙ set) ∙ has_bit-set_bit slab.map index j;
        others = λ a other ne e.
            let apart : (a == page) ≡ false = ground arith in same a other (rw (written, apart) e);
      }

  -- The same, if the slab goes to another list.
  moved-WasTaken :
      (from to : SlabList) (page index : ℕ) (slab new : Slab) (cache' : SlabCache)
      → pool.slabs page ≡ some slab
      → ((l : SlabList) → Present pool.slabs (head_of cache' l))
      → new.last ≡ slab.last
      → new.next ≡ slab.next
      → new.map ≡ set_bit slab.map index
      → 0 < index
      → index < pool.cache.map_bits
      → has_bit slab.map index ≡ false
      → (pool' : Pool W) × (slab_cache_move_block
            (record {
              cache = cache';
              slabs = update pool.slabs page (some new);
              world = pool.world;
            })
            from
            to
            page
          ≡ some pool')
        × WasTaken pool pool' (page + index * pool.cache.block_size)
  moved-WasTaken from to page index slab new cache' at heads el en set lo hi free =
      let self : (page == page) ≡ true = ground arith in
      let links = c.linked page slab at in
      let middle : Pool W = record {
        cache = cache';
        slabs = update pool.slabs page (some new);
        world = pool.world;
      } in
      let keeps = Present-update pool.slabs page new in
      let (pool', e, same) =
        slab_cache_move_block-SameMaps middle from to page new
          (λ l. keeps (head_of cache' l) (heads l)) (rw self refl)
          (subst (Present middle.slabs) (sym el) (keeps slab.last links.0))
          (subst (Present middle.slabs) (sym en) (keeps slab.next links.1)) in
      (pool', e, taken-WasTaken page index slab new middle pool' at refl same set lo hi free)

  plain_address :
      (page index : ℕ) (slab : Slab)
      → pool.slabs page ≡ some slab
      → index < pool.cache.map_bits
      → page +w index *w pool.cache.block_size ≡ page + index * pool.cache.block_size
  plain_address page index slab at hi =
      let fits = c.blocks index hi in
      let below = c.pages page slab at in let some_size = c.some_size in omega arith

  alloc_partial-WasTaken :
      (slab : Slab)
      → pool.slabs pool.cache.partial ≡ some slab
      → (ptr : ℕ) × (pool' : Pool W) × (alloc_partial pool pool.cache.partial ≡ some (ptr, pool'))
        × WasTaken pool pool' ptr
  unfolding alloc_partial
  alloc_partial-WasTaken slab at =
      let page = pool.cache.partial in
      let (header, (k, below, clear)) = c.partial_left slab at in
      let bits = c.bits in
      let (free, from, upto) =
        first_clear_lowest map_size slab.map 0 k (omega arith) (omega arith) clear in
      let i = first_clear map_size slab.map 0 in
      let behind : 0 < i = after_header slab.map i header free in
      let hi : i < pool.cache.map_bits = omega arith in
      let word : ltb i map_size ≡ true = ground arith in
      let address = plain_address page i slab at hi in
      elim (Bool-cases (slab.bits_free -w 1 == 0)) [
        | inl last ↦
            let (pool', e, taken) =
              moved-WasTaken partial_list full_list page i slab
                (record slab {
                  map = set_bit slab.map i;
                  bits_free = slab.bits_free -w 1;
                  status = is_full;
                })
                pool.cache at c.heads refl refl refl behind hi free in
            (page + i * pool.cache.block_size, pool', rw (at, word, last, e, address) refl, taken)
        | inr more ↦
            let new : Slab = record slab {
              map = set_bit slab.map i;
              bits_free = slab.bits_free -w 1;
            } in
            (
              page + i * pool.cache.block_size,
              set_slab pool page new,
              rw (at, word, more, address) refl,
              taken-WasTaken page i slab new (set_slab pool page new) (set_slab pool page new) at
                  refl (λ a other e. (other, e, refl)) refl behind hi free,
            )
      ]

  alloc_free-WasTaken :
      (slab : Slab)
      → pool.slabs pool.cache.free ≡ some slab
      → (ptr : ℕ) × (pool' : Pool W) × (alloc_free pool pool.cache.free ≡ some (ptr, pool'))
        × WasTaken pool pool' ptr
  unfolding alloc_free
  alloc_free-WasTaken slab at =
      let page = pool.cache.free in
      let some_block = c.some_block in
      let fits = c.blocks 1 (omega arith) in
      let below = c.pages page slab at in
      let some_size = c.some_size in
      let address : page +w pool.cache.block_size ≡ page + 1 * pool.cache.block_size =
        omega arith in
      let free : has_bit slab.map 1 ≡ false = rw (c.free_empty slab at) one_bit in
      let (pool', e, taken) =
        moved-WasTaken free_list partial_list page 1 slab
          (record slab {
            map = set_bit slab.map 1;
            status = is_partial;
            bits_free = slab.bits_free -w 1;
          })
          (record pool.cache { free_pages = pool.cache.free_pages -w 1 }) at
          (count_heads pool.slabs pool.cache (pool.cache.free_pages -w 1) c.heads) refl refl refl
          (omega arith) (omega arith) free in
      (page + 1 * pool.cache.block_size, pool', rw (at, e, address) refl, taken)

  partial_header :
      pool.cache.partial ≢ 0 → (slab : Slab) × (pool.slabs pool.cache.partial ≡ some slab)
  unfolding head_of
  partial_header ne = elim (c.heads partial_list) [ inl e ↦ absurd (ne e) | inr h ↦ h ]

  free_header : pool.cache.free ≢ 0 → (slab : Slab) × (pool.slabs pool.cache.free ≡ some slab)
  unfolding head_of
  free_header ne = elim (c.heads free_list) [ inl e ↦ absurd (ne e) | inr h ↦ h ]

  taken_not_null : (pool' : Pool W) (ptr : ℕ) → WasTaken pool pool' ptr → ptr ≢ 0
  taken_not_null pool' ptr t e =
      let at = t.address in
      let zero_page : t.page ≡ 0 = omega arith in
      let header : some t.slab ≡ none = sym t.before ∙ ap pool.slabs zero_page ∙ c.null in cc

  -- `slab_alloc` of a cache that has a partial or a free slab, if the heads of its lists and the links of
  -- its slabs are NULL or lead to slabs, the first partial slab has a clear bit below `map_bits` and the
  -- bit of its header set, the first free slab has only the header's bit, `map_bits` is 2 to 64, no slab
  -- is at NULL, and the blocks, which are not empty, lie in their page, which ends at 2 ^ 32 at most. It
  -- returns a block of one of the slabs that was not in use, behind the header and within the page, not
  -- NULL. Afterwards the block is in use, and every other block of every slab is in use if and only if
  -- it was.
  pub slab_alloc-WasTaken :
      (calls : Calls W)
      → (pool.cache.partial ≢ 0) ⊎ (pool.cache.free ≢ 0)
      → (ptr : ℕ) × (pool' : Pool W) × (slab_alloc calls pool ≡ some (ptr, pool'))
        × (ptr ≢ 0)
        × WasTaken pool pool' ptr
  unfolding slab_alloc slab_alloc_loop alloc_round
  slab_alloc-WasTaken calls ready = elim (ℕ_discrete pool.cache.partial 0) [
    | no ne ↦
        let (slab, at) = partial_header ne in
        let (ptr, pool', e, taken) = alloc_partial-WasTaken slab at in
        let not_null = taken_not_null pool' ptr taken in
        let a : (pool.cache.partial == 0) ≡ false = ground arith in
        let b : (ptr == 0) ≡ false = ground arith in
        (ptr, pool', rw (a, e, b) refl, not_null, taken)
    | yes none_partial ↦
        let ne : pool.cache.free ≢ 0 = λ z. elim ready [ inl p ↦ p none_partial | inr f ↦ f z ] in
        let (slab, at) = free_header ne in
        let (ptr, pool', e, taken) = alloc_free-WasTaken slab at in
        let not_null = taken_not_null pool' ptr taken in
        let a : (pool.cache.partial == 0) ≡ true = ground arith in
        let b : (pool.cache.free == 0) ≡ false = ground arith in
        let d : (ptr == 0) ≡ false = ground arith in
        (ptr, pool', rw (a, b, e, d) refl, not_null, taken)
  ]
