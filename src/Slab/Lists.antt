-- ===== src/Slab/Lists.antt =====
-- The moves of a slab between the lists of its cache keep every header and its map.
use helix_os.Common.{
  ℕ, ◌≡◌, ◌⊎◌, refl, sym, ap, ◌∙◌, true, false, Option, some, arith, ◌==◌, Bool-cases, inl, inr,
  ℕ_discrete,
}
use helix_os.Vfs.{update}
use helix_os.Slab.{
  Pool, Slab, SlabCache, SlabList, free_list, partial_list, full_list, head_of, with_head, set_slab,
  link_next, link_last, slab_cache_push_block, unlink_slab, slab_cache_move_block,
}

-- NULL, or a header that is there.
abbrev pub Present : (ℕ → Option Slab) → ℕ → Type 0
Present slabs address = (address ≡ 0) ⊎ ((slab : Slab) × (slabs address ≡ some slab))

-- Every header is still there, with its map.
abbrev pub SameMaps : (ℕ → Option Slab) → (ℕ → Option Slab) → Type 0
SameMaps slabs slabs' =
    (a : ℕ) (slab : Slab)
    → slabs a ≡ some slab
    → (slab' : Slab) × (slabs' a ≡ some slab') × (slab'.map ≡ slab.map)

pub SameMaps-trans : (f g h : ℕ → Option Slab) → SameMaps f g → SameMaps g h → SameMaps f h
SameMaps-trans f g h s t a slab e =
    let (slab1, e1, m1) = s a slab e in let (slab2, e2, m2) = t a slab1 e1 in (slab2, e2, m2 ∙ m1)

pub Present-keeps : (f g : ℕ → Option Slab) → SameMaps f g → (a : ℕ) → Present f a → Present g a
Present-keeps f g s a (inl e) = inl e
Present-keeps f g s a (inr (slab, e)) = let (slab', e', m) = s a slab e in inr (slab', e')

pub Present-update :
    (f : ℕ → Option Slab) (page : ℕ) (new : Slab) (a : ℕ)
    → Present f a
    → Present (update f page (some new)) a
Present-update f page new a (inl e) = inl e
Present-update f page new a (inr (slab, at)) = elim (Bool-cases (a == page)) [
  | inl e ↦ inr (new, rw e refl)
  | inr e ↦ inr (slab, rw e at)
]

-- A header written with the same map.
pub update-SameMaps :
    (f : ℕ → Option Slab) (a : ℕ) (old new : Slab)
    → f a ≡ some old
    → new.map ≡ old.map
    → SameMaps f (update f a (some new))
update-SameMaps f a old new e m b slab at = elim (ℕ_discrete b a) [
  | yes same ↦
      let self : (b == a) ≡ true = ground arith in
      let both : some old ≡ some slab = sym e ∙ ap f (sym same) ∙ at in
      let one : old ≡ slab = cc in (new, rw self refl, m ∙ ap (λ (s : Slab). s.map) one)
  | no other ↦ let apart : (b == a) ≡ false = ground arith in (slab, rw apart at, refl)
]

with_head-Present :
    (slabs : ℕ → Option Slab) (cache : SlabCache) (from l : SlabList) (x : ℕ)
    → ((l : SlabList) → Present slabs (head_of cache l))
    → Present slabs x
    → Present slabs (head_of (with_head cache from x) l)
unfolding head_of with_head
with_head-Present slabs cache free_list free_list x h p = p
with_head-Present slabs cache free_list partial_list x h p = h partial_list
with_head-Present slabs cache free_list full_list x h p = h full_list
with_head-Present slabs cache partial_list free_list x h p = h free_list
with_head-Present slabs cache partial_list partial_list x h p = p
with_head-Present slabs cache partial_list full_list x h p = h full_list
with_head-Present slabs cache full_list free_list x h p = h free_list
with_head-Present slabs cache full_list partial_list x h p = h partial_list
with_head-Present slabs cache full_list full_list x h p = p

module _ {W : Type 0} where
  abbrev Kept : Pool W → Option (Pool W) → Type 0
  Kept pool result =
      (pool' : Pool W) × (result ≡ some pool')
      × SameMaps pool.slabs pool'.slabs
      × (pool'.cache ≡ pool.cache)

  link_next-Kept :
      (pool : Pool W) (address next : ℕ)
      → Present pool.slabs address
      → Kept pool (link_next pool address next)
  unfolding link_next
  link_next-Kept pool address next (inl e) =
      let z : (address == 0) ≡ true = ground arith in
      (pool, rw z refl, λ a slab at. (slab, at, refl), refl)
  link_next-Kept pool address next (inr (slab, at)) = elim (Bool-cases (address == 0)) [
    | inl z ↦ (pool, rw z refl, λ a slab at. (slab, at, refl), refl)
    | inr z ↦ (
      set_slab pool address (record slab { next = next }),
      rw (z, at) refl,
      update-SameMaps pool.slabs address slab (record slab { next = next }) at refl,
      refl,
    )
  ]

  link_last-Kept :
      (pool : Pool W) (address last : ℕ)
      → Present pool.slabs address
      → Kept pool (link_last pool address last)
  unfolding link_last
  link_last-Kept pool address last (inl e) =
      let z : (address == 0) ≡ true = ground arith in
      (pool, rw z refl, λ a slab at. (slab, at, refl), refl)
  link_last-Kept pool address last (inr (slab, at)) = elim (Bool-cases (address == 0)) [
    | inl z ↦ (pool, rw z refl, λ a slab at. (slab, at, refl), refl)
    | inr z ↦ (
      set_slab pool address (record slab { last = last }),
      rw (z, at) refl,
      update-SameMaps pool.slabs address slab (record slab { last = last }) at refl,
      refl,
    )
  ]

  abbrev pub Heads : Pool W → Type 0
  Heads pool = (l : SlabList) → Present pool.slabs (head_of pool.cache l)

  unlink_slab-SameMaps :
      (pool : Pool W) (from : SlabList) (slab : Slab)
      → Heads pool
      → Present pool.slabs slab.last
      → Present pool.slabs slab.next
      → (pool' : Pool W) × (unlink_slab pool from slab ≡ some pool')
        × SameMaps pool.slabs pool'.slabs
        × Heads pool'
  unfolding unlink_slab
  unlink_slab-SameMaps pool from slab h pl pn =
      let (pool1, e1, s1, c1) = link_next-Kept pool slab.last slab.next pl in
      let h1 : (l : SlabList) → Present pool1.slabs (head_of pool1.cache l) =
        λ l. rw c1 (Present-keeps pool.slabs pool1.slabs s1 _ (h l)) in
      let (pool2, e2, s2, c2) =
        link_last-Kept pool1 slab.next slab.last (Present-keeps pool.slabs pool1.slabs s1 _ pn) in
      elim (Bool-cases (slab.next == 0)) [
        | inl z ↦ (
          record pool1 { cache = with_head pool1.cache from slab.last },
          rw (e1, z) refl,
          s1,
          λ l.
              with_head-Present pool1.slabs pool1.cache from l slab.last h1
                (Present-keeps pool.slabs pool1.slabs s1 _ pl),
        )
        | inr z ↦ (
          pool2,
          rw (e1, z) e2,
          SameMaps-trans pool.slabs pool1.slabs pool2.slabs s1 s2,
          λ l. rw c2 (Present-keeps pool1.slabs pool2.slabs s2 _ (h1 l)),
        )
      ]

  slab_cache_push_block-SameMaps :
      (pool : Pool W) (to : SlabList) (address : ℕ) (slab : Slab)
      → Heads pool
      → pool.slabs address ≡ some slab
      → (pool' : Pool W) × (slab_cache_push_block pool to address ≡ some pool')
        × SameMaps pool.slabs pool'.slabs
  unfolding slab_cache_push_block
  slab_cache_push_block-SameMaps pool to address slab h at =
      let written = record slab { last = head_of pool.cache to; next = 0 } in
      let s0 = update-SameMaps pool.slabs address slab written at refl in
      let (pool1, e1, s1, c1) =
        link_next-Kept (set_slab pool address written) (head_of pool.cache to) address
          (Present-keeps pool.slabs (set_slab pool address written).slabs s0 _ (h to)) in
      (
        record pool1 { cache = with_head pool1.cache to address },
        rw (at, e1) refl,
        SameMaps-trans pool.slabs (set_slab pool address written).slabs pool1.slabs s0 s1,
      )

  pub slab_cache_move_block-SameMaps :
      (pool : Pool W) (from to : SlabList) (address : ℕ) (slab : Slab)
      → Heads pool
      → pool.slabs address ≡ some slab
      → Present pool.slabs slab.last
      → Present pool.slabs slab.next
      → (pool' : Pool W) × (slab_cache_move_block pool from to address ≡ some pool')
        × SameMaps pool.slabs pool'.slabs
  unfolding slab_cache_move_block
  slab_cache_move_block-SameMaps pool from to address slab h at pl pn =
      let (pool1, e1, s1, h1) = unlink_slab-SameMaps pool from slab h pl pn in
      let (slab1, at1, m1) = s1 address slab at in
      let (pool2, e2, s2) = slab_cache_push_block-SameMaps pool1 to address slab1 h1 at1 in
      (pool2, rw (at, e1) e2, SameMaps-trans pool.slabs pool1.slabs pool2.slabs s1 s2)
