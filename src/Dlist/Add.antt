-- ===== src/Dlist/Add.antt =====
-- `dlist_add`: the slot that it takes, and what else it changes.
use helix_os.Common.{
  ℕ, ◌+◌, ◌-◌, ◌*◌, ◌≤◌, ◌<◌, ◌≡◌, ◌≢◌, refl, sym, ◌∙◌, List, arith, leb, if◌then◌else◌, get_or,
  set, length, length-set, get_or-set_self, get_or-set_ne, inl, inr, Bool-cases, ℕ_discrete, ◌+w◌,
  ◌-w◌, ◌*w◌, dec_lt,
}
use native.Mathlib.Nat.{mul-le-mul_left}
use helix_os.Salloc.Arrays.{krealloc, length-krealloc, krealloc_keeps}
use helix_os.Dlist.{Dlist, find_free, grow, dlist_add, dlist_get}
use helix_os.Dlist.Slots.{
  occupied-le, IsValid, Found, find_free-Found, get_or-clear_from, length-clear_from, get_or_past,
  occupied-set, occupied-cong,
}

-- `dlist_get` of a valid list reads the entries, with NULL behind their end.
pub dlist_get-get_or :
    {list : Dlist} (v : IsValid list) (i : ℕ) → dlist_get list i ≡ get_or list.entries i 0
unfolding dlist_get
dlist_get-get_or {list} v i = ground (arith, v.room, get_or_past list.entries i)

-- Writing a pointer to a free slot takes one more into use.
set-IsValid :
    {room : Dlist} (v : IsValid room) (i ptr : ℕ)
    → ptr ≢ 0
    → i < length room.entries
    → get_or room.entries i 0 ≡ 0
    → IsValid (record room { entries = set room.entries i ptr; used = room.used +w 1 })
set-IsValid {room} v i ptr ne inside free = record {
  room = length-set room.entries i ptr ∙ v.room;
  blocks = v.blocks;
  some_block = v.some_block;
  some_room = v.some_room;
  small = v.small;
  counted = ground (
    arith,
    v.counted,
    v.small,
    v.room,
    occupied-le room.entries,
    occupied-set room.entries i ptr inside,
  );
}

-- A list that shows the same entries, with a slot free at `i`.
record Ready (list room : Dlist) (i : ℕ) : Type 0 where
  valid : IsValid room
  slot : i < room.alloced
  same_used : room.used ≡ list.used
  same : (k : ℕ) → get_or room.entries k 0 ≡ get_or list.entries k 0

module _ (fill : ℕ → ℕ) {list : Dlist} (v : IsValid list)
    (small : list.alloced + list.block_size < 256) where
  slot : ℕ
  slot = find_free list.entries list.alloced 0

  found : Found list.entries list.alloced 0 slot
  unfolding slot
  found = find_free-Found list.entries list.alloced 0

  slot_free : get_or list.entries slot 0 ≡ 0
  slot_free = elim (dec_lt slot list.alloced) [
    | yes h ↦ found.free_at (omega arith)
    | no h ↦ get_or_past list.entries slot (omega (arith, v.room))
  ]

  next_blocks : list.blocks_alloced +w 1 ≡ list.blocks_alloced + 1
  next_blocks =
      let le : list.blocks_alloced * 1 ≤ list.blocks_alloced * list.block_size =
        mul-le-mul_left list.blocks_alloced v.some_block in
      omega (arith, v.blocks)

  grown : (list.blocks_alloced +w 1) *w list.block_size ≡ list.alloced + list.block_size
  grown = rw next_blocks (omega (arith, v.blocks))

  -- The block that `krealloc` returns.
  moved : List ℕ
  moved = krealloc 4 fill list.entries ((list.blocks_alloced +w 1) *w list.block_size)

  length-moved : length moved ≡ list.alloced + list.block_size
  unfolding moved
  length-moved = length-krealloc fill list.entries _ (omega (arith, grown)) ∙ grown

  get_or-moved : (k : ℕ) → k < list.alloced → get_or moved k 0 ≡ get_or list.entries k 0
  unfolding moved
  get_or-moved k h =
      krealloc_keeps fill list.entries _ (omega (arith, grown)) k (omega (arith, v.room))
        (omega (arith, v.room)) (omega (arith, grown))

  -- From the free slot on the old list shows NULL.
  none_behind : list.alloced ≤ slot + 1 → (k : ℕ) → slot ≤ k → get_or list.entries k 0 ≡ 0
  none_behind h k le = elim (ℕ_discrete slot k) [
    | yes e ↦ rw (← e) slot_free
    | no ne ↦ get_or_past list.entries k (omega (arith, v.room))
  ]

  grow-same :
      list.alloced ≤ slot + 1
      → (k : ℕ) → get_or (grow fill list slot).entries k 0 ≡ get_or list.entries k 0
  unfolding grow moved
  grow-same h k =
      let n : list.alloced +w list.block_size ≡ list.alloced + list.block_size = omega arith in
      let le = found.upto in
      rw
        (
          n,
          get_or-clear_from moved (list.alloced + list.block_size - slot) slot k
              (omega (arith, length-moved)),
        )
        (ground (arith, none_behind h k, get_or-moved k, get_or_past moved k, length-moved))

  grow-Ready : list.alloced ≤ slot + 1 → Ready list (grow fill list slot) slot
  unfolding grow moved
  grow-Ready h =
      let n : list.alloced +w list.block_size ≡ list.alloced + list.block_size = omega arith in
      record {
        valid = record {
          room = length-clear_from moved _ slot ∙ omega (arith, length-moved);
          blocks = rw next_blocks (omega (arith, v.blocks));
          some_block = v.some_block;
          some_room = omega (arith, v.some_room);
          small = omega arith;
          counted = v.counted ∙ sym (occupied-cong _ list.entries (grow-same h));
        };
        slot = omega (arith, found.upto, v.some_block);
        same_used = refl;
        same = grow-same h;
      }

  -- The list whose slot is written, grown or not.
  room : Dlist
  room = if leb (list.alloced -w 1) slot then grow fill list slot else list

  room-Ready : Ready list room slot
  unfolding room
  room-Ready = elim (Bool-cases (leb (list.alloced -w 1) slot)) [
    | inl full ↦ rw full (grow-Ready (ground (arith, v.some_room, v.small)))
    | inr part ↦ rw part (record {
      valid = v;
      slot = ground (arith, v.some_room, v.small);
      same_used = refl;
      same = λ k. refl;
    })
  ]

  dlist_add-room :
      (ptr : ℕ)
      → dlist_add fill list ptr
        ≡ (slot, record room { entries = set room.entries slot ptr; used = room.used +w 1 })
  unfolding dlist_add room slot
  dlist_add-room ptr = refl

  pub dlist_add-slot :
      (ptr : ℕ)
      → ptr ≢ 0
      → let (i, list') = dlist_add fill list ptr in
        (dlist_get list i ≡ 0)
        × ((k : ℕ) → k < i → dlist_get list k ≢ 0)
        × (dlist_get list' i ≡ ptr)
        × ((k : ℕ) → k ≢ i → dlist_get list' k ≡ dlist_get list k)
        × (list'.used ≡ list.used + 1)
        × IsValid list'
  dlist_add-slot ptr ne =
      let r = room-Ready in
      let inside : slot < length room.entries = omega (arith, r.slot, r.valid.room) in
      let valid' = set-IsValid r.valid slot ptr ne inside (r.same slot ∙ slot_free) in
      rw (dlist_add-room ptr) (
        dlist_get-get_or v slot ∙ slot_free,
        λ k h e. found.taken_before k (omega arith) h (sym (dlist_get-get_or v k) ∙ e),
        dlist_get-get_or valid' slot ∙ get_or-set_self room.entries slot ptr 0 inside,
        λ k other.
            dlist_get-get_or valid' k
            ∙ get_or-set_ne room.entries slot k ptr 0 (λ e. other (sym e))
            ∙ r.same k
            ∙ sym (dlist_get-get_or v k),
        omega (arith, r.same_used, v.counted, v.room, v.small, occupied-le list.entries),
        valid',
      )
