-- ===== src/Dlist/Update.antt =====
-- `dlist_create`, `dlist_remove` and `dlist_set`.
use helix_os.Common.{
  ltb, length, ℕ, ◌+◌, ◌*◌, ◌^◌, ◌≤◌, ◌<◌, ◌≡◌, ◌≢◌, refl, sym, ◌∙◌, arith, true, false, ◌==◌,
  if◌then◌else◌, get_or, set, length-set, get_or-set_self, get_or-set_ne, inl, inr, Bool-cases,
  ◌-w◌, ◌*w◌, not, length-replicate,
}
use native.Mathlib.Nat.{mul-le-mul_left}
use helix_os.Dlist.{
  fresh, Dlist, is_taken, dlist_create, dlist_remove, dlist_set, dlist_get, dlist_used,
  dlist_allocated,
}
use helix_os.Dlist.Slots.{
  occupied, occupied-le, occupied-set, IsValid, occupied-replicate, get_or-replicate,
}
use helix_os.Dlist.Add.{dlist_get-get_or}

fresh-IsValid :
    (size blocks : ℕ)
    → 0 < size
    → 0 < blocks
    → size * blocks < 2 ^ 31
    → IsValid (fresh size blocks) × ((k : ℕ) → dlist_get (fresh size blocks) k ≡ 0)
fresh-IsValid size blocks some_size some_blocks small =
    let n : size *w blocks ≡ size * blocks = omega arith in
    let le : size * 1 ≤ size * blocks = mul-le-mul_left size some_blocks in
    let valid : IsValid (fresh size blocks) = record {
      room = length-replicate (size *w blocks) 0;
      blocks = omega arith;
      some_block = some_size;
      some_room = omega arith;
      small = omega arith;
      counted = sym (occupied-replicate (size *w blocks));
    } in
    (valid, λ k. dlist_get-get_or valid k ∙ get_or-replicate (size *w blocks) k)

-- The slots that `dlist_create` is asked for, with its defaults.
abbrev asked : ℕ → ℕ → ℕ
asked block_size prealloc =
    (if block_size == 0 then 8 else block_size) * (if prealloc == 0 then 1 else prealloc)

pos_default : (b d : ℕ) → 0 < d → 0 < (if b == 0 then d else b)
pos_default b d h = ground arith

if-not : (b d : ℕ) → (if not (b == 0) then b else d) ≡ (if b == 0 then d else b)
if-not b d = ground arith

-- `dlist_create`, asked for fewer than 2 ^ 31 slots, gives a valid list that shows NULL everywhere.
pub dlist_create-IsValid :
    (block_size prealloc : ℕ)
    → asked block_size prealloc < 2 ^ 31
    → IsValid (dlist_create block_size prealloc)
      × ((k : ℕ) → dlist_get (dlist_create block_size prealloc) k ≡ 0)
unfolding dlist_create
dlist_create-IsValid block_size prealloc small =
    rw (if-not block_size 8, if-not prealloc 1)
      (fresh-IsValid _ _ (pos_default block_size 8 (omega arith))
        (pos_default prealloc 1 (omega arith)) small)

module _ {list : Dlist} (v : IsValid list) where
  removed : ℕ → Dlist
  removed i = record list { entries = set list.entries i 0; used = list.used -w 1 }

  removed-IsValid :
      (i : ℕ)
      → i < list.alloced
      → get_or list.entries i 0 ≢ 0
      → IsValid (removed i) × ((removed i).used + 1 ≡ list.used)
  unfolding removed
  removed-IsValid i inside taken =
      let n = occupied-set list.entries i 0 (omega (arith, v.room)) in
      let le = occupied-le list.entries in
      (
        record {
          room = length-set list.entries i 0 ∙ v.room;
          blocks = v.blocks;
          some_block = v.some_block;
          some_room = v.some_room;
          small = v.small;
          counted = ground (arith, v.counted, v.room, v.small);
        },
        ground (arith, v.counted, v.room, v.small),
      )

  get_free : (i : ℕ) → is_taken list i ≡ false → dlist_get list i ≡ 0
  unfolding dlist_get
  get_free i e = rw e

  get_taken : (i : ℕ) → is_taken list i ≡ true → (dlist_get list i == 0) ≡ false
  unfolding dlist_get
  get_taken i e = ground arith

  removed-slots :
      (i : ℕ)
      → i < list.alloced
      → IsValid (removed i)
      → (dlist_get (removed i) i ≡ 0)
        × ((k : ℕ) → k ≢ i → dlist_get (removed i) k ≡ dlist_get list k)
  unfolding removed
  removed-slots i inside valid = (
    dlist_get-get_or valid i ∙ get_or-set_self list.entries i 0 0 (omega (arith, v.room)),
    λ k ne.
        dlist_get-get_or valid k
        ∙ get_or-set_ne list.entries i k 0 0 (λ e. ne (sym e))
        ∙ sym (dlist_get-get_or v k),
  )

  -- `dlist_remove` of a valid list returns 0; the slot shows NULL afterwards and every other slot
  -- what it did, and the list is valid, with one slot less in use if the slot was in use.
  pub dlist_remove-slot :
      (i : ℕ)
      → let (ret, list') = dlist_remove list i in
        (ret ≡ 0)
        × (dlist_get list' i ≡ 0)
        × ((k : ℕ) → k ≢ i → dlist_get list' k ≡ dlist_get list k)
        × (list'.used + (if dlist_get list i == 0 then 0 else 1) ≡ list.used)
        × IsValid list'
  unfolding dlist_remove removed
  dlist_remove-slot i = elim (Bool-cases (is_taken list i)) [
    | inl taken ↦
        let (valid, n) = removed-IsValid i (ground arith) (ground arith) in
        let (gone, kept) = removed-slots i (ground arith) valid in
        rw (taken, get_taken i taken) (refl, gone, kept, n, valid)
    | inr free ↦ rw (free, get_free i free) (refl, refl, λ k ne. refl, omega arith, v)
  ]

  -- `dlist_set` of a pointer other than NULL to a slot of a valid list that shows NULL returns the
  -- pointer. The slot then shows it and every other slot what it did, but `used` stays, so that it is one
  -- less than the slots in use.
  pub dlist_set_miscounts :
      (i ptr : ℕ)
      → i < list.alloced
      → ptr ≢ 0
      → dlist_get list i ≡ 0
      → let (ret, list') = dlist_set list i ptr in
        (ret ≡ ptr)
        × (dlist_get list' i ≡ ptr)
        × ((k : ℕ) → k ≢ i → dlist_get list' k ≡ dlist_get list k)
        × (dlist_used list' + 1 ≡ occupied list'.entries)
  unfolding dlist_set dlist_used dlist_get
  dlist_set_miscounts i ptr lo ne free =
      let inside : ltb i list.alloced ≡ true = ground arith in
      let place : i < length list.entries = omega (arith, v.room) in
      let now = get_or-set_self list.entries i ptr 0 place in
      let taken : (ptr == 0) ≡ false = ground arith in
      let count : list.used + 1 ≡ occupied (set list.entries i ptr) = ground (
        arith,
        v.counted,
        v.room,
        sym (dlist_get-get_or v i) ∙ free,
        occupied-set list.entries i ptr,
      ) in
      rw inside (
        refl,
        rw (inside, now, taken) refl,
        λ k other. rw (get_or-set_ne list.entries i k ptr 0 (λ e. other (sym e))) refl,
        count,
      )

pub dlist_remove-allocated :
    (list : Dlist) (i : ℕ) → dlist_allocated (dlist_remove list i).1 ≡ dlist_allocated list
unfolding dlist_remove dlist_allocated
dlist_remove-allocated list i = elim (Bool-cases (is_taken list i)) [
  | inl taken ↦ rw taken refl
  | inr free ↦ rw free refl
]
