-- ===== src/Dlist/Table.antt =====
-- `dlist_add` to a list whose count of used slots may be wrong, as `dlist_set` leaves it.
use mathlib.Core.Path.{subst}
use helix_os.Common.{
  ℕ, ◌+◌, ◌*◌, ◌^◌, ◌<◌, ◌≡◌, ◌≢◌, refl, sym, arith, leb, get_or, length, inl, inr, Bool-cases,
  ◌-w◌,
}
use helix_os.Dlist.{Dlist, find_free, grow, dlist_add, dlist_get}
use helix_os.Dlist.Slots.{IsValid, occupied}
use helix_os.Dlist.Add.{dlist_add-slot, dlist_get-get_or}

pub record IsTable (list : Dlist) : Type 0 where
  pub room : length list.entries ≡ list.alloced
  pub blocks : list.alloced ≡ list.blocks_alloced * list.block_size
  pub some_block : 0 < list.block_size
  pub some_room : 0 < list.alloced
  pub small : list.alloced < 2 ^ 31

counted : Dlist → Dlist
counted list = record list { used = occupied list.entries }

counted-IsValid : (list : Dlist) → IsTable list → IsValid (counted list)
unfolding counted
counted-IsValid list t = record {
  room = t.room;
  blocks = t.blocks;
  some_block = t.some_block;
  some_room = t.some_room;
  small = t.small;
  counted = refl;
}

pub table_get : (list : Dlist) → IsTable list → (k : ℕ) → dlist_get list k ≡ get_or list.entries k 0
unfolding counted dlist_get
table_get list t k = dlist_get-get_or {list = counted list} (counted-IsValid list t) k

dlist_add_count :
    (fill : ℕ → ℕ) (list : Dlist) (ptr : ℕ)
    → dlist_add fill list ptr ≡ (
      (dlist_add fill (counted list) ptr).0,
      record (dlist_add fill (counted list) ptr).1 { used = (dlist_add fill list ptr).1.used },
    )
unfolding dlist_add counted grow
dlist_add_count fill list ptr =
    elim (Bool-cases (leb (list.alloced -w 1) (find_free list.entries list.alloced 0))) [
      | inl full ↦ rw full refl
      | inr part ↦ rw part refl
    ]

-- The list `list'` after `ptr` went into slot `i` of `list`.
pub record Added (list list' : Dlist) (i ptr : ℕ) : Type 0 where
  pub was_free : dlist_get list i ≡ 0
  pub now : dlist_get list' i ≡ ptr
  pub others : (k : ℕ) → k ≢ i → dlist_get list' k ≡ dlist_get list k
  pub is_table : IsTable list'

pub dlist_add-Added :
    (fill : ℕ → ℕ) (list : Dlist) (ptr : ℕ)
    → IsTable list
    → list.alloced + list.block_size < 256
    → ptr ≢ 0
    → Added list (dlist_add fill list ptr).1 (dlist_add fill list ptr).0 ptr
unfolding counted dlist_get
dlist_add-Added fill list ptr t small ne =
    let (free, lowest, now, others, count, valid) =
      dlist_add-slot fill {list = counted list} (counted-IsValid list t) small ptr ne in
    let b = dlist_add fill (counted list) ptr in
    let moved : Added list (record b.1 { used = (dlist_add fill list ptr).1.used }) b.0 ptr =
      record {
        was_free = free;
        now = now;
        others = others;
        is_table = record {
          room = valid.room;
          blocks = valid.blocks;
          some_block = valid.some_block;
          some_room = valid.some_room;
          small = valid.small;
        };
      } in
    subst (λ (p : ℕ × Dlist). Added list p.1 p.0 ptr) (sym (dlist_add_count fill list ptr)) moved

pub dlist_get_below : (list : Dlist) (k : ℕ) → dlist_get list k ≢ 0 → k < list.alloced
unfolding dlist_get
dlist_get_below list k ne = ground arith
