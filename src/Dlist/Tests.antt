-- ===== src/Dlist/Tests.antt =====
-- Runs of kernel/base/datastructs/dlist.c, and its theorems at a concrete list.
use helix_os.Common.{◌==◌, if◌then◌else◌, ℕ, ◌+◌, ◌≡◌, ◌≢◌, refl, [], ◌∷◌, arith}
use helix_os.Dlist.{
  Dlist, find_free, grow, dlist_add, dlist_remove, dlist_get, dlist_set, dlist_used,
}
use helix_os.Dlist.Resize.{fill}
use helix_os.Dlist.Slots.{occupied, IsValid}
use helix_os.Dlist.Update.{dlist_remove-slot, dlist_set_miscounts}

-- Two blocks of two, the last slot free: an addition takes it and grows the list.
abbrev almost : Dlist
almost = record {
  entries = 11 ∷ 12 ∷ 13 ∷ 0 ∷ [];
  used = 3;
  alloced = 4;
  block_size = 2;
  blocks_alloced = 2;
}

almost-IsValid : IsValid almost
unfolding occupied
almost-IsValid = omega arith

almost_grows : (dlist_add fill almost 14).1.alloced ≡ 6
unfolding dlist_add find_free grow
almost_grows = refl

dlist_set_miscounts_example :
    let (ret, list') = dlist_set almost 3 14 in
    (ret ≡ 14)
    × (dlist_get list' 3 ≡ 14)
    × ((k : ℕ) → k ≢ 3 → dlist_get list' k ≡ dlist_get almost k)
    × (dlist_used list' + 1 ≡ occupied list'.entries)
unfolding dlist_get
dlist_set_miscounts_example =
    dlist_set_miscounts {list = almost} almost-IsValid 3 14 (omega arith) (omega arith) refl

dlist_remove-slot_example :
    let (ret, list') = dlist_remove almost 1 in
    (ret ≡ 0)
    × (dlist_get list' 1 ≡ 0)
    × ((k : ℕ) → k ≢ 1 → dlist_get list' k ≡ dlist_get almost k)
    × (list'.used + (if dlist_get almost 1 == 0 then 0 else 1) ≡ 3)
    × IsValid list'
dlist_remove-slot_example = dlist_remove-slot {list = almost} almost-IsValid 1
