-- ===== src/Dlist.antt =====
-- kernel/base/datastructs/dlist.c: an array of pointers that grows by blocks. A pointer is a number
-- and NULL is 0. `fill` is what the memory of a new block held.
pub mod Slots
pub mod Add
pub mod Room
pub mod Update
pub mod Resize
pub mod Table
mod Tests
use helix_os.Salloc.Arrays.{krealloc}
use helix_os.Common.{
  ℕ, zero, suc, ◌+◌, ◌-◌, ◌*◌, ◌<◌, ◌≤◌, ◌≡◌, Bool, not, ◌&&◌, List, ◌==◌, ltb, leb, if◌then◌else◌,
  ◌+w◌, ◌-w◌, ◌*w◌, get_or, set, length, replicate,
}

abbrev pub dlist_default_blocksize : ℕ
dlist_default_blocksize = 8

-- `dlist_container_t`; `entries` is the array that it points to.
pub record Dlist : Type 0 where
  pub entries : List ℕ
  pub used : ℕ
  pub alloced : ℕ
  pub block_size : ℕ
  pub blocks_alloced : ℕ

-- `knew` clears what it allocates.
abbrev pub fresh : ℕ → ℕ → Dlist
fresh size blocks = record {
  entries = replicate (size *w blocks) 0;
  used = 0;
  alloced = size *w blocks;
  block_size = size;
  blocks_alloced = blocks;
}

pub dlist_create : ℕ → ℕ → Dlist
dlist_create block_size prealloc =
    fresh (if not (block_size == 0) then block_size else dlist_default_blocksize)
      (if not (prealloc == 0) then prealloc else 1)

-- The first loop of `dlist_add`; the second argument is `alloced - i`.
pub find_free : List ℕ → ℕ → ℕ → ℕ
find_free entries zero i = i
find_free entries (suc left) i =
    let rest = find_free entries left (i + 1) in if not (get_or entries i 0 == 0) then rest else i

-- The second loop; the second argument is `alloced - j`.
pub clear_from : List ℕ → ℕ → ℕ → List ℕ
clear_from entries zero j = entries
clear_from entries (suc left) j = clear_from (set entries j 0) left (j + 1)

module _ (fill : ℕ → ℕ) where
  -- The list grown by a block, with the entries from `i` on cleared.
  pub grow : Dlist → ℕ → Dlist
  grow list i =
      let alloced = list.alloced +w list.block_size in
      record list {
        entries =
            clear_from
              (krealloc 4 fill list.entries ((list.blocks_alloced +w 1) *w list.block_size))
              (alloced - i) i;
        alloced = alloced;
        blocks_alloced = list.blocks_alloced +w 1;
      }

  pub dlist_add : Dlist → ℕ → ℕ × Dlist
  dlist_add list ptr =
      let i = find_free list.entries list.alloced 0 in
      let room = if leb (list.alloced -w 1) i then grow list i else list in
      (i, record room { entries = set room.entries i ptr; used = room.used +w 1 })

-- `index` is an `int`; the comparison with the unsigned `alloced` takes its 32-bit pattern.
abbrev pub is_taken : Dlist → ℕ → Bool
is_taken list index = ltb index list.alloced && not (get_or list.entries index 0 == 0)

-- It returns 0 whatever it finds.
pub dlist_remove : Dlist → ℕ → ℕ × Dlist
dlist_remove list index =
    if is_taken list index
    then (0, record list { entries = set list.entries index 0; used = list.used -w 1 })
    else (0, list)

unfoldable pub dlist_get : Dlist → ℕ → ℕ
dlist_get list index = if is_taken list index then get_or list.entries index 0 else 0

pub dlist_set : Dlist → ℕ → ℕ → ℕ × Dlist
dlist_set list index ptr =
    if ltb index list.alloced
    then (ptr, record list { entries = set list.entries index ptr })
    else (0, list)

unfoldable pub dlist_allocated : Dlist → ℕ
dlist_allocated list = list.alloced

pub dlist_used : Dlist → ℕ
dlist_used list = list.used
