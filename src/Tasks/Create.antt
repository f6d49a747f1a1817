-- ===== src/Tasks/Create.antt =====
-- The copies that the creation of a task makes, where what it copies is there.
use helix_os.Common.{
  ℕ, zero, suc, ◌+◌, ◌≡◌, ◌⊎◌, refl, true, Option, some, arith, ◌==◌, Bool-cases, inl, inr,
}
use helix_os.Dlist.{Dlist, dlist_add, dlist_get}
use helix_os.Vfs.{State, FileNode, FileObj, pobj_copy, update}
use helix_os.Tasks.{TaskBlocks, copy_node, copy_fds}

-- NULL, or an object that is there and has no constructor.
abbrev pub Plain : {W : Type 0} → State W → ℕ → Type 0
Plain st ptr = (ptr ≡ 0) ⊎ ((obj : FileObj) × (st.objects ptr ≡ some obj) × (obj.base_ctor ≡ 0))

-- NULL, or a file node that is there.
abbrev pub Node : {W : Type 0} → State W → ℕ → Type 0
Node st address = (address ≡ 0) ⊎ ((node : FileNode) × (st.nodes address ≡ some node))

module _ {W : Type 0} where
  Plain-update :
      (st : State W) (fresh : ℕ) (obj : FileObj) (ptr : ℕ)
      → obj.base_ctor ≡ 0
      → Plain st ptr
      → Plain (record st { objects = update st.objects fresh (some obj) }) ptr
  Plain-update st fresh obj ptr plain (inl e) = inl e
  Plain-update st fresh obj ptr plain (inr (old, at, old_plain)) =
      elim (Bool-cases (ptr == fresh)) [
        | inl e ↦ inr (obj, rw e refl, plain)
        | inr e ↦ inr (old, rw e at, old_plain)
      ]

  Node-update :
      (st : State W) (fresh : ℕ) (node : FileNode) (address : ℕ)
      → Node st address
      → Node (record st { nodes = update st.nodes fresh (some node) }) address
  Node-update st fresh node address (inl e) = inl e
  Node-update st fresh node address (inr (old, at)) = elim (Bool-cases (address == fresh)) [
    | inl e ↦ inr (node, rw e refl)
    | inr e ↦ inr (old, rw e at)
  ]

  -- A node is copied: the objects and the tables stay.
  pub copy_node_returns :
      (st : State W) (address fresh : ℕ)
      → Node st address
      → (r : ℕ) × (st' : State W) × (copy_node st address fresh ≡ some (r, st'))
        × ((ptr : ℕ) → Plain st ptr → Plain st' ptr)
        × ((a : ℕ) → Node st a → Node st' a)
        × (st'.pobjects ≡ st.pobjects)
        × (st'.curdir ≡ st.curdir)
  unfolding copy_node
  copy_node_returns st address fresh (inl e) =
      let z : (address == 0) ≡ true = ground arith in
      (0, st, rw z refl, λ ptr p. p, λ a n. n, refl, refl)
  copy_node_returns st address fresh (inr (node, at)) = elim (Bool-cases (address == 0)) [
    | inl z ↦ (0, st, rw z refl, λ ptr p. p, λ a n. n, refl, refl)
    | inr z ↦ (
      fresh,
      record st { nodes = update st.nodes fresh (some node) },
      rw (z, at) refl,
      λ ptr p. p,
      λ a n. Node-update st fresh node a n,
      refl,
      refl,
    )
  ]

  module _ (fill : ℕ → ℕ) (ctors : ℕ → ℕ → ℕ → State W → Option (State W))
      (map_page : ℕ → ℕ → ℕ → W → W) where
    pub copy_fds_returns :
        (left : ℕ) (blocks : TaskBlocks) (fds : ℕ → ℕ) (i : ℕ) (st : State W) (table : Dlist)
        → ((k : ℕ) → Plain st (dlist_get st.pobjects k))
        → (st' : State W) × (table' : Dlist) × (copy_fds fill ctors map_page left blocks fds i st
              table
            ≡ some (st', table'))
    unfolding copy_fds pobj_copy
    copy_fds_returns zero blocks fds i st table plain = (st, table, refl)
    copy_fds_returns (suc left) blocks fds i st table plain =
        elim (Bool-cases (dlist_get st.pobjects (fds i) == 0)) [
          | inl none_there ↦ (st, table, rw none_there refl)
          | inr there ↦ elim (plain (fds i)) [
            | inl e ↦ absurd (ground arith)
            | inr (obj, at, no_ctor) ↦
                let z : (obj.base_ctor == 0) ≡ true = ground arith in
                let fresh = blocks.object i in
                let st1 : State W = record st { objects = update st.objects fresh (some obj) } in
                let (st', table', e) =
                  copy_fds_returns left blocks fds (i + 1) st1 (dlist_add fill table fresh).1
                    (λ k. Plain-update st fresh obj (dlist_get st.pobjects k) no_ctor (plain k)) in
                (st', table', rw (there, at, z) e)
          ]
        ]
