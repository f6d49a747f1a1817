-- ===== src/Slab.antt =====
-- kernel/base/mem/slabnew.c: a cache of slabs, each a page whose first block is its header. The headers
-- are in a store by address; `none` is an access to a header that is not there. The page allocator and
-- the functions on blocks are those that the cache points to.
pub mod Bits
pub mod Lists
pub mod Fresh
pub mod Setup
pub mod Create
mod Tests
use helix_os.Common.{
  ℕ, zero, suc, ◌+◌, ◌-◌, ◌*◌, ◌/◌, ◌%◌, ◌^◌, Bool, true, false, not, ◌&&◌, Option, none, some, ltb,
  leb, ◌==◌, if◌then◌else◌, ◌+w◌, ◌-w◌, ◌*w◌, ◌>>=◌,
}
use helix_os.Vfs.{update}
use helix_os.Salloc.{map_bits, block_size}

abbrev pub slab_page : ℕ
slab_page = 4096

abbrev pub map_size : ℕ
map_size = 64

abbrev pub page_block : ℕ
page_block = 4

abbrev pub max_free_pages : ℕ
max_free_pages = 8

abbrev pub dark_magic : ℕ
dark_magic = 0xabadc0de

pub data SlabStat : Type 0 where
  is_free : SlabStat
  is_partial : SlabStat
  is_full : SlabStat

-- `slab_t`; its cache is the one of the pool.
pub record Slab : Type 0 where
  pub last : ℕ
  pub next : ℕ
  pub map : ℕ
  pub bits_free : ℕ
  pub magic : ℕ
  pub status : SlabStat

-- `slab_cache_t`
pub record SlabCache : Type 0 where
  pub free : ℕ
  pub partial : ℕ
  pub full : ℕ
  pub obj_size : ℕ
  pub pages_alloced : ℕ
  pub map_bits : ℕ
  pub block_size : ℕ
  pub free_pages : ℕ
  pub max_free : ℕ

-- What a cache calls, over the memory beside the headers.
pub record Calls (W : Type 0) : Type 0 where
  pub alloc_page : ℕ → W → ℕ × W
  pub free_page : ℕ → W → W
  pub ctor : Option (ℕ → W → W)
  pub dtor : Option (ℕ → W → W)

pub record Pool (W : Type 0) : Type 0 where
  pub cache : SlabCache
  pub slabs : ℕ → Option Slab
  pub world : W

-- `map & (1 << i)`, digit by digit.
pub has_bit : ℕ → ℕ → Bool
has_bit map zero = map % 2 == 1
has_bit map (suc i) = has_bit (map / 2) i

-- `map | (1 << i)`
pub set_bit : ℕ → ℕ → ℕ
set_bit map zero = map / 2 * 2 + 1
set_bit map (suc i) = set_bit (map / 2) i * 2 + map % 2

-- `map & ~(1 << i)`
pub clear_bit : ℕ → ℕ → ℕ
clear_bit map zero = map / 2 * 2
clear_bit map (suc i) = clear_bit (map / 2) i * 2 + map % 2

-- The index of the bit `b` where `for ( b = 1; slab->map & b; b <<= 1 )` ends; `b` is 0 after 64 rounds.
-- The first argument is how many are left.
pub first_clear : ℕ → ℕ → ℕ → ℕ
first_clear zero map i = i
first_clear (suc left) map i =
    let rest = first_clear left map (i + 1) in if has_bit map i then rest else i

-- `map | b`
abbrev pub mark : ℕ → ℕ → ℕ
mark map i = if ltb i map_size then set_bit map i else map

-- The three lists of a cache.
pub data SlabList : Type 0 where
  free_list : SlabList
  partial_list : SlabList
  full_list : SlabList

pub head_of : SlabCache → SlabList → ℕ
head_of cache free_list = cache.free
head_of cache partial_list = cache.partial
head_of cache full_list = cache.full

pub with_head : SlabCache → SlabList → ℕ → SlabCache
with_head cache free_list slab = record cache { free = slab }
with_head cache partial_list slab = record cache { partial = slab }
with_head cache full_list slab = record cache { full = slab }

pub new_slab : SlabCache → Slab
new_slab cache = record {
  last = 0;
  next = 0;
  map = 1;
  bits_free = cache.map_bits -w 1;
  magic = dark_magic;
  status = is_free;
}

module _ {W : Type 0} where
  abbrev pub set_slab : Pool W → ℕ → Slab → Pool W
  set_slab pool address slab = record pool { slabs = update pool.slabs address (some slab) }

  -- `slab->next = next` and `slab->last = last` through a pointer that may be NULL.
  pub link_next : Pool W → ℕ → ℕ → Option (Pool W)
  link_next pool address next =
      let found =
        pool.slabs address >>= λ slab. some (set_slab pool address (record slab { next = next })) in
      if address == 0 then some pool else found

  pub link_last : Pool W → ℕ → ℕ → Option (Pool W)
  link_last pool address last =
      let found =
        pool.slabs address >>= λ slab. some (set_slab pool address (record slab { last = last })) in
      if address == 0 then some pool else found

  -- The part of both list operations that puts a slab at the head of a list.
  pub slab_cache_push_block : Pool W → SlabList → ℕ → Option (Pool W)
  slab_cache_push_block pool slist address = do
    slab ← pool.slabs address
    pool' ←
        link_next
          (set_slab pool address (record slab { last = head_of pool.cache slist; next = 0 }))
          (head_of pool.cache slist) address
    some (record pool' { cache = with_head pool'.cache slist address })

  -- Its neighbours are joined first, or the head of the list that it leaves is set.
  pub unlink_slab : Pool W → SlabList → Slab → Option (Pool W)
  unlink_slab pool from slab = link_next pool slab.last slab.next >>= λ pool'.
      if slab.next == 0
      then some (record pool' { cache = with_head pool'.cache from slab.last })
      else link_last pool' slab.next slab.last

  pub slab_cache_move_block : Pool W → SlabList → SlabList → ℕ → Option (Pool W)
  slab_cache_move_block pool from to address = do
    slab ← pool.slabs address
    pool' ← unlink_slab pool from slab
    slab_cache_push_block pool' to address

  -- A function on every block behind the header; the first argument is how many are left.
  pub each_block : ℕ → ℕ → (ℕ → W → W) → ℕ → W → W
  each_block zero block_size f pos world = world
  each_block (suc left) block_size f pos world =
      each_block left block_size f (pos +w block_size) (f (pos +w block_size) world)

  pub on_blocks : SlabCache → Option (ℕ → W → W) → ℕ → W → W
  on_blocks cache none page world = world
  on_blocks cache (some f) page world =
      each_block (cache.map_bits - 1) cache.block_size f page world

  -- A block of the first partial slab.
  pub alloc_partial : Pool W → ℕ → Option (ℕ × Pool W)
  alloc_partial pool address = do
    slab ← pool.slabs address
    let i = first_clear map_size slab.map 0
    let taken = record slab { map = mark slab.map i; bits_free = slab.bits_free -w 1 }
    pool' ←
        if taken.bits_free == 0
        then slab_cache_move_block (set_slab pool address (record taken { status = is_full }))
            partial_list full_list address
        else some (set_slab pool address taken)
    some (address +w i *w pool.cache.block_size, pool')

  -- The first block of a free slab.
  pub alloc_free : Pool W → ℕ → Option (ℕ × Pool W)
  alloc_free pool address = do
    slab ← pool.slabs address
    let taken = record slab {
      map = set_bit slab.map 1;
      status = is_partial;
      bits_free = slab.bits_free -w 1;
    }
    pool' ←
        slab_cache_move_block
          (record (set_slab pool address taken) {
            cache = record pool.cache { free_pages = pool.cache.free_pages -w 1 };
          })
          free_list partial_list address
    some (address +w pool.cache.block_size, pool')

  -- `none` beside the pool is a round that found no slab.
  pub alloc_round : Pool W → Option (ℕ × Pool W)
  alloc_round pool =
      if not (pool.cache.partial == 0)
      then alloc_partial pool pool.cache.partial
      else (if not (pool.cache.free == 0) then alloc_free pool pool.cache.free else some (0, pool))

  -- What `slab_free` does with a slab whose bit it cleared.
  pub settle : Pool W → ℕ → Slab → Option (Pool W)
  settle pool address slab = elim slab.status [
    | is_full ↦
        if leb 1 slab.bits_free
        then slab_cache_move_block (set_slab pool address (record slab { status = is_partial }))
            full_list partial_list address
        else some (set_slab pool address slab)
    | is_partial ↦
        if slab.bits_free == pool.cache.map_bits -w 1
        then slab_cache_move_block
            (record (set_slab pool address (record slab { status = is_free })) {
              cache = record pool.cache { free_pages = pool.cache.free_pages +w 1 };
            })
            partial_list free_list address
        else some (set_slab pool address slab)
    | is_free ↦ some (set_slab pool address slab)
  ]

  module _ (calls : Calls W) where
    pub slab_cache_add_page : Pool W → ℕ → Option (Pool W)
    slab_cache_add_page pool page =
        slab_cache_push_block
          (record {
            cache = record pool.cache {
              free_pages = pool.cache.free_pages +w 1;
              pages_alloced = pool.cache.pages_alloced +w 1;
            };
            slabs = update pool.slabs page (some (new_slab pool.cache));
            world = on_blocks pool.cache calls.ctor page pool.world;
          })
          free_list page

    -- The first argument is how many pages are left.
    pub slab_cache_add_pages : ℕ → Pool W → ℕ → Option (Pool W)
    slab_cache_add_pages zero pool curpage = some pool
    slab_cache_add_pages (suc left) pool curpage = slab_cache_add_page pool curpage >>= λ pool'.
        slab_cache_add_pages left pool' (curpage +w slab_page)

    pub slab_cache_add_page_block : Pool W → Option (Pool W)
    slab_cache_add_page_block pool =
        let (buf, world) = calls.alloc_page page_block pool.world in
        let pool' = record pool { world = world } in
        if buf == 0 then some pool' else slab_cache_add_pages page_block pool' buf

    -- The header goes with its page.
    pub free_first_page : Pool W → ℕ → Option (Pool W)
    free_first_page pool address = do
      slab ← pool.slabs address
      pool1 ←
          link_last
            (record pool {
              cache = record pool.cache {
                free = slab.last;
                pages_alloced = pool.cache.pages_alloced -w 1;
                free_pages = pool.cache.free_pages -w 1;
              };
            })
            slab.next slab.last
      pool2 ← link_next pool1 slab.last slab.next
      some (record pool2 {
        world = calls.free_page address (on_blocks pool2.cache calls.dtor address pool2.world);
        slabs = update pool2.slabs address none;
      })

    pub free_one_cache_page : Pool W → Option (Pool W)
    free_one_cache_page pool =
        if pool.cache.free == 0 then some pool else free_first_page pool pool.cache.free

    -- `for ( i = 0; !ret && i < 2; i++ )`; the first argument is how many rounds are left.
    pub slab_alloc_loop : ℕ → Pool W → Option (ℕ × Pool W)
    slab_alloc_loop zero pool = some (0, pool)
    slab_alloc_loop (suc left) pool = alloc_round pool >>= λ r.
        let again = slab_cache_add_page_block r.1 >>= slab_alloc_loop left in
        if r.0 == 0 then again else some r

    pub slab_alloc : Pool W → Option (ℕ × Pool W)
    slab_alloc pool = slab_alloc_loop 2 pool

    abbrev pub trim : Pool W → Option (Pool W)
    trim pool =
        if ltb pool.cache.max_free pool.cache.free_pages
        then free_one_cache_page pool
        else some pool

    pub slab_free : Pool W → ℕ → Option (Pool W)
    slab_free pool ptr = do
      let slabpos = ptr / 4096 * 4096
      slab ← pool.slabs slabpos
      let bits = (ptr - slabpos) / pool.cache.block_size
      pool' ←
          if slab.magic == dark_magic
          then settle pool slabpos
              (record slab { map = clear_bit slab.map bits; bits_free = slab.bits_free +w 1 })
          else some pool
      trim pool'

    pub slab_free_from_ptr : Pool W → ℕ → Option (Pool W)
    slab_free_from_ptr pool ptr = pool.slabs (ptr / 4096 * 4096) >>= λ slab.
        if slab.magic == dark_magic then slab_free pool ptr else some pool

    -- `free_slab_list`; the walk to the end of the list takes fuel.
    pub free_slab_list : ℕ → Pool W → ℕ → Option (Pool W)
    free_slab_list zero pool move = none
    free_slab_list (suc fuel) pool move =
        let freed = pool.slabs move >>= λ slab.
        free_slab_list fuel
          (record pool {
            cache = record pool.cache { pages_alloced = pool.cache.pages_alloced -w 1 };
            slabs = update pool.slabs move none;
            world = calls.free_page move (on_blocks pool.cache calls.dtor move pool.world);
          })
          slab.last in
        if move == 0 then some pool else freed

    pub delete_slab_cache : ℕ → Pool W → Option (Pool W)
    delete_slab_cache fuel pool = do
      pool1 ← free_slab_list fuel pool pool.cache.free
      pool2 ← free_slab_list fuel pool1 pool1.cache.partial
      free_slab_list fuel pool2 pool2.cache.full

  -- A cache for objects of `size` bytes, with its first pages.
  pub new_slab_cache_at_addr : Calls W → Pool W → ℕ → Option (Pool W)
  new_slab_cache_at_addr calls pool size = slab_cache_add_page_block calls (record pool {
    cache = record {
      free = 0;
      partial = 0;
      full = 0;
      obj_size = size;
      pages_alloced = 0;
      map_bits = map_bits size;
      block_size = block_size size;
      free_pages = 0;
      max_free = max_free_pages;
    };
  })

  pub slab_ptr_get_obj_size : Pool W → ℕ → Option ℕ
  slab_ptr_get_obj_size pool ptr = pool.slabs (ptr / 4096 * 4096) >>= λ slab.
      some (if slab.magic == dark_magic then pool.cache.obj_size else 0)

  pub slab_ptr_get_block_size : Pool W → ℕ → Option ℕ
  slab_ptr_get_block_size pool ptr = pool.slabs (ptr / 4096 * 4096) >>= λ slab.
      some (if slab.magic == dark_magic then pool.cache.block_size else 0)
