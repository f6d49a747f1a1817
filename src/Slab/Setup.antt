-- ===== src/Slab/Setup.antt =====
-- `slab_cache_add_page`: a page that joins a cache.
use mathlib.Core.Path.{subst}
use helix_os.Common.{
  ℕ, ◌+◌, ◌^◌, ◌≤◌, ◌≡◌, ◌≢◌, ◌⊎◌, refl, sym, ap, ◌∙◌, true, false, none, some, arith, ◌==◌,
  if◌then◌else◌, Bool-cases, inl, inr, ℕ_discrete, ◌+w◌,
}
use helix_os.Vfs.{update}
use helix_os.Slab.{
  Pool, Slab, Calls, free_list, partial_list, full_list, head_of, with_head, set_slab, link_next,
  slab_cache_push_block, slab_cache_add_page, new_slab, on_blocks,
}
use helix_os.Slab.Lists.{Present, SameMaps, Heads, Present-keeps, SameMaps-trans, update-SameMaps}
use helix_os.Slab.Fresh.{IsCache}

-- Where a header of the cache comes from: it is the new one, or it was there and differs at most in the
-- link that leads to the new one.
abbrev Origin : {W : Type 0} → Pool W → ℕ → ℕ → Slab → Type 0
Origin pool page a slab' =
    ((a ≡ page) × (slab'.map ≡ 1) × (slab'.last ≡ pool.cache.free) × (slab'.next ≡ 0))
    ⊎ ((slab : Slab) × (pool.slabs a ≡ some slab)
        × (slab'.map ≡ slab.map)
        × (slab'.last ≡ slab.last)
        × ((slab'.next ≡ slab.next) ⊎ (slab'.next ≡ page)))

-- The page is the first free slab; the rest of the cache is as it was.
pub record Added {W : Type 0} (pool pool' : Pool W) (page : ℕ) : Type 0 where
  pub free : pool'.cache.free ≡ page
  pub partial : pool'.cache.partial ≡ pool.cache.partial
  pub full : pool'.cache.full ≡ pool.cache.full
  pub map_bits : pool'.cache.map_bits ≡ pool.cache.map_bits
  pub block_size : pool'.cache.block_size ≡ pool.cache.block_size
  pub free_pages : pool'.cache.free_pages ≡ pool.cache.free_pages +w 1
  pub there : (slab : Slab) × (pool'.slabs page ≡ some slab)
  pub kept : SameMaps pool.slabs pool'.slabs
  pub null : pool'.slabs 0 ≡ none
  pub origin : (a : ℕ) (slab' : Slab) → pool'.slabs a ≡ some slab' → Origin pool page a slab'

module _ {W : Type 0} (pool : Pool W) (page : ℕ) where
  -- The header of the page, written twice.
  first-Origin :
      (new new' : Slab)
      → new'.map ≡ 1
      → new'.last ≡ pool.cache.free
      → new'.next ≡ 0
      → (a : ℕ) (slab' : Slab)
      → update (update pool.slabs page (some new)) page (some new') a ≡ some slab'
      → Origin pool page a slab'
  first-Origin new new' m l n a slab' e = elim (Bool-cases (a == page)) [
    | inl here ↦
        let got : some new' ≡ some slab' =
          subst
            (λ b. (if b then some new' else (if b then some new else pool.slabs a)) ≡ some slab')
            here e in
        let same : new' ≡ slab' = cc in
        inl (
          ground arith,
          ap (λ (s : Slab). s.map) (sym same) ∙ m,
          ap (λ (s : Slab). s.last) (sym same) ∙ l,
          ap (λ (s : Slab). s.next) (sym same) ∙ n,
        )
    | inr other ↦
        let got : pool.slabs a ≡ some slab' =
          subst
            (λ b. (if b then some new' else (if b then some new else pool.slabs a)) ≡ some slab')
            other e in
        inr (slab', got, refl, refl, inl refl)
  ]

module _ {W : Type 0} (pool : Pool W) (c : IsCache pool) (page : ℕ) where
  -- A header of the cache is not at the page that is added.
  not_page :
      ((slab : Slab) → pool.slabs page ≡ some slab → false ≡ true)
      → (a : ℕ) (slab : Slab) → pool.slabs a ≡ some slab
      → a ≢ page
  not_page fresh a slab at e =
      let no = fresh slab (subst (λ p. pool.slabs p ≡ some slab) e at) in cc

  pub slab_cache_add_page-Added :
      (calls : Calls W)
      → page ≢ 0
      → ((slab : Slab) → pool.slabs page ≡ some slab → false ≡ true)
      → (pool' : Pool W) × (slab_cache_add_page calls pool page ≡ some pool')
        × Added pool pool' page
  unfolding slab_cache_add_page slab_cache_push_block link_next head_of with_head new_slab
  slab_cache_add_page-Added calls ne fresh =
      let head = pool.cache.free in
      let self : (page == page) ≡ true = ground arith in
      let zero_page : (0 == page) ≡ false = ground arith in
      let new = new_slab pool.cache in
      let written : Slab = record new { last = head; next = 0 } in
      let first : Pool W = record {
        cache = record pool.cache {
          free_pages = pool.cache.free_pages +w 1;
          pages_alloced = pool.cache.pages_alloced +w 1;
          free = page;
        };
        slabs = update (update pool.slabs page (some new)) page (some written);
        world = on_blocks pool.cache calls.ctor page pool.world;
      } in
      let kept_first : SameMaps pool.slabs first.slabs = λ a slab at.
        let ne' = not_page fresh a slab at in
        let apart : (a == page) ≡ false = ground arith in (slab, rw apart at, refl) in
      elim (ℕ_discrete head 0) [
        | yes z ↦
            let zb : (head == 0) ≡ true = ground arith in
            (
              first,
              rw (self, zb) refl,
              record {
                free = refl;
                partial = refl;
                full = refl;
                map_bits = refl;
                block_size = refl;
                free_pages = refl;
                there = (written, rw self refl);
                kept = kept_first;
                null = rw (zero_page) c.null;
                origin = first-Origin pool page new written refl refl refl;
              },
            )
        | no nz ↦
            let zb : (head == 0) ≡ false = ground arith in
            let (h, at) : (slab : Slab) × (pool.slabs head ≡ some slab) = elim (c.heads free_list) [
              | inl e ↦ absurd (nz e)
              | inr h ↦ h
            ] in
            let head_page = not_page fresh head h at in
            let apart : (head == page) ≡ false = ground arith in
            let apart' : (page == head) ≡ false = ground arith in
            let zero_head : (0 == head) ≡ false = ground arith in
            let there : first.slabs head ≡ some h = rw apart at in
            let linked : Slab = record h { next = page } in
            (
              set_slab first head linked,
              rw (self, zb, apart, at) refl,
              record {
                free = refl;
                partial = refl;
                full = refl;
                map_bits = refl;
                block_size = refl;
                free_pages = refl;
                there = (written, rw (apart', self) refl);
                kept =
                    SameMaps-trans pool.slabs first.slabs (set_slab first head linked).slabs
                      kept_first (update-SameMaps first.slabs head h linked there refl);
                null = rw (zero_head, zero_page) c.null;
                origin = λ a slab' e. elim (Bool-cases (a == head)) [
                  | inl here ↦
                      let same : some linked ≡ some slab' =
                        subst (λ b. (if b then some linked else first.slabs a) ≡ some slab') here
                          e in
                      let old : pool.slabs a ≡ some h =
                        ap pool.slabs (let e : a ≡ head = ground arith in e) ∙ at in
                      subst (Origin pool page a) (let e : linked ≡ slab' = cc in e)
                        (inr (h, old, refl, refl, inr refl))
                  | inr other ↦
                      first-Origin pool page new written refl refl refl a slab' (
                        subst (λ b. (if b then some linked else first.slabs a) ≡ some slab') other
                          e)
                ];
              },
            )
      ]

  Added-Heads : (pool' : Pool W) → Added pool pool' page → Heads pool'
  unfolding head_of
  Added-Heads pool' added free_list = rw added.free (inr added.there)
  Added-Heads pool' added partial_list =
      rw added.partial
        (Present-keeps pool.slabs pool'.slabs added.kept pool.cache.partial (c.heads partial_list))
  Added-Heads pool' added full_list =
      rw added.full
        (Present-keeps pool.slabs pool'.slabs added.kept pool.cache.full (c.heads full_list))

  pub Added-IsCache :
      (pool' : Pool W)
      → page ≢ 0
      → page + 4096 ≤ 2 ^ 32
      → ((slab : Slab) → pool.slabs page ≡ some slab → false ≡ true)
      → Added pool pool' page
      → IsCache pool'
  unfolding head_of
  Added-IsCache pool' ne room fresh added =
      let keeps = Present-keeps pool.slabs pool'.slabs added.kept in
      let at_page : Present pool'.slabs page = inr added.there in
      record {
        heads = Added-Heads pool' added;
        null = added.null;
        linked = λ a slab at. elim (added.origin a slab at) [
          | inl (here, m, l, n) ↦ (rw l (keeps pool.cache.free (c.heads free_list)), inl n)
          | inr (old, was, m, l, n) ↦
              let links = c.linked a old was in
              (
                rw l (keeps old.last links.0),
                elim n [ inl e ↦ rw e (keeps old.next links.1) | inr e ↦ rw e at_page ],
              )
        ];
        partial_left = λ slab at.
            let at' = subst (λ a. pool'.slabs a ≡ some slab) added.partial at in
            elim (added.origin pool.cache.partial slab at') [
              | inl (here, m, l, n) ↦ elim (c.heads partial_list) [
                | inl z ↦ absurd (ne (sym here ∙ z))
                | inr (old, was) ↦ absurd (not_page fresh pool.cache.partial old was here)
              ]
              | inr (old, was, m, l, n) ↦
                  let (header, (k, below, clear)) = c.partial_left old was in
                  (rw m header, (k, rw added.map_bits below, rw m clear))
            ];
        free_empty = λ slab at.
            elim (added.origin page slab (subst (λ a. pool'.slabs a ≡ some slab) added.free at)) [
              | inl (here, m, l, n) ↦ m
              | inr (old, was, m, l, n) ↦ let no = fresh old was in absurd cc
            ];
        pages = λ a slab at. elim (added.origin a slab at) [
          | inl (here, m, l, n) ↦ omega arith
          | inr (old, was, m, l, n) ↦ c.pages a old was
        ];
        some_block = rw added.map_bits c.some_block;
        some_size = rw added.block_size c.some_size;
        bits = rw added.map_bits c.bits;
        blocks = λ k h. rw added.block_size (c.blocks k (rw added.map_bits at h));
      }
