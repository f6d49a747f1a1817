-- ===== src/Slab/Tests.antt =====
-- Runs of a cache of slabs, and its theorems at a cache with one slab.
use helix_os.Common.{
  ℕ, ◌+◌, ◌*◌, ◌≤◌, ◌≡◌, ◌≢◌, refl, sym, ap, ◌∙◌, none, some, arith, ◌==◌, Bool-cases, inl, inr,
}
use helix_os.Vfs.{update}
use helix_os.Slab.{
  Pool, Slab, SlabCache, Calls, free_list, partial_list, full_list, head_of, is_partial, has_bit,
  slab_alloc, set_bit, first_clear, new_slab_cache_at_addr, alloc_round, alloc_partial,
  slab_alloc_loop, dark_magic,
}
use helix_os.Slab.Lists.{Heads}
use helix_os.Slab.Fresh.{IsCache, WasTaken, slab_alloc-WasTaken}
use helix_os.Slab.Create.{new_slab_cache_at_addr-IsCache}

-- Four blocks, the header and the first of the others in use.
abbrev one_slab : Slab
one_slab = record {
  last = 0;
  next = 0;
  map = 3;
  bits_free = 2;
  magic = dark_magic;
  status = is_partial;
}

abbrev cache : SlabCache
cache = record {
  free = 0;
  partial = 0x10000;
  full = 0;
  obj_size = 1000;
  pages_alloced = 1;
  map_bits = 4;
  block_size = 1024;
  free_pages = 0;
  max_free = 8;
}

abbrev pool : Pool ℕ
pool = record { cache = cache; slabs = update (λ a. none) 0x10000 (some one_slab); world = 0 }

-- A page allocator that has no page.
abbrev calls : Calls ℕ
calls = record {
  alloc_page = λ n world. (0, world);
  free_page = λ page world. world;
  ctor = none;
  dtor = none;
}

third_block : (r : Pool ℕ) × (slab_alloc calls pool ≡ some (0x10800, r))
unfolding slab_alloc slab_alloc_loop alloc_round alloc_partial first_clear has_bit set_bit
third_block = (_, refl)

only_slab : (a : ℕ) (slab : Slab) → pool.slabs a ≡ some slab → (a ≡ 0x10000) × (one_slab ≡ slab)
only_slab a slab e = elim (Bool-cases (a == 0x10000)) [
  | inl here ↦
      let g : pool.slabs a ≡ some one_slab = rw here refl in
      let both : some one_slab ≡ some slab = sym g ∙ e in (ground arith, cc)
  | inr other ↦
      let g : pool.slabs a ≡ none = rw other refl in
      let both : none ≡ some slab = sym g ∙ e in absurd cc
]

pool-Heads : Heads pool
unfolding head_of
pool-Heads free_list = inl refl
pool-Heads partial_list = inr (one_slab, refl)
pool-Heads full_list = inl refl

pool-IsCache : IsCache pool
unfolding has_bit
pool-IsCache = record {
  heads = pool-Heads;
  null = refl;
  linked = λ a slab e.
      let one = (only_slab a slab e).1 in
      (inl (ap (λ (s : Slab). s.last) (sym one)), inl (ap (λ (s : Slab). s.next) (sym one)));
  partial_left = λ slab e.
      let one = (only_slab 0x10000 slab e).1 in
      (
        ap (λ (s : Slab). has_bit s.map 0) (sym one),
        (2, omega arith, ap (λ (s : Slab). has_bit s.map 2) (sym one)),
      );
  free_empty = λ slab e. let place = (only_slab 0 slab e).0 in absurd (omega arith);
  pages = λ a slab e. let place = (only_slab a slab e).0 in omega arith;
  some_block = omega arith;
  some_size = omega arith;
  bits = omega arith;
  blocks = λ k h. omega arith;
}

slab_alloc-WasTaken_example :
    (ptr : ℕ) × (pool' : Pool ℕ) × (slab_alloc calls pool ≡ some (ptr, pool'))
    × (ptr ≢ 0)
    × WasTaken pool pool' ptr
slab_alloc-WasTaken_example = slab_alloc-WasTaken pool pool-IsCache calls (inl (omega arith))

-- A region that has four pages at 1 MiB.
abbrev giving : Calls ℕ
giving = record {
  alloc_page = λ n world. (0x100000, world + 1);
  free_page = λ page world. world;
  ctor = none;
  dtor = none;
}

abbrev nothing : Pool ℕ
nothing = record { cache = cache; slabs = λ a. none; world = 0 }

new_slab_cache_at_addr-IsCache_example :
    (pool' : Pool ℕ) × (new_slab_cache_at_addr giving nothing 100 ≡ some pool')
    × IsCache pool'
    × (pool'.cache.free ≡ 0x100000 + 3 * 4096)
    × (pool'.cache.partial ≡ 0)
    × (pool'.cache.full ≡ 0)
    × (pool'.cache.free_pages ≡ 4)
    × (100 ≤ pool'.cache.block_size)
    × ((ptr : ℕ) × (pool'' : Pool ℕ) × (slab_alloc giving pool' ≡ some (ptr, pool''))
        × (ptr ≢ 0)
        × WasTaken pool' pool'' ptr)
new_slab_cache_at_addr-IsCache_example =
    new_slab_cache_at_addr-IsCache nothing (λ a. refl) giving 100 0x100000 1 (omega arith)
      (omega arith) refl (omega arith) (omega arith)
