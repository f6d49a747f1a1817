-- ===== src/Dlist/Room.antt =====
-- The slots that `dlist_add` leaves room for: those of one more block at most.
use helix_os.Common.{ℕ, ◌+◌, ◌^◌, ◌≤◌, ◌<◌, ◌≡◌, refl, arith, leb, ◌-w◌, Bool-cases, inl, inr}
use helix_os.Dlist.{Dlist, find_free, grow, dlist_add}

pub dlist_add-alloced :
    (fill : ℕ → ℕ) (list : Dlist) (ptr : ℕ)
    → list.alloced + list.block_size < 2 ^ 31
    → ((dlist_add fill list ptr).1.alloced ≤ list.alloced + list.block_size)
      × ((dlist_add fill list ptr).1.block_size ≡ list.block_size)
unfolding dlist_add grow
dlist_add-alloced fill list ptr small =
    elim (Bool-cases (leb (list.alloced -w 1) (find_free list.entries list.alloced 0))) [
      | inl full ↦ rw full (omega arith, refl)
      | inr part ↦ rw part (omega arith, refl)
    ]
