-- ===== src/Vfs/Close.antt =====
-- `vfs_close`: the descriptor is gone, and no other is touched.
use helix_os.Common.{ℕ, ◌≡◌, ◌≢◌, refl, ap, ◌∙◌, true, none, some, arith, ltb, ◌==◌}
use helix_os.Dlist.{Dlist, dlist_get, dlist_remove}
use helix_os.Dlist.Slots.{IsValid}
use helix_os.Dlist.Update.{dlist_remove-slot, dlist_remove-allocated}
use helix_os.Vfs.{
  FileObj, Funcs, State, found, refused, vfs_get_pobj, update, call_close, pobj_free, vfs_close,
  neg, error_not_found,
}
use helix_os.Vfs.Objects.{get_pobj-IsFile, IsFile-found, get_pobj-not_found}

module _ {W : Type 0} (drivers : ℕ → Funcs W) (dtors : ℕ → ℕ → State W → State W) (st : State W)
    (fd ptr : ℕ) (obj : FileObj) (e : vfs_get_pobj st fd ≡ found ptr obj)
    (table : IsValid st.pobjects) (alone : (k : ℕ) → k ≢ fd → dlist_get st.pobjects k ≢ ptr)
    (plain : obj.base_dtor ≡ 0) where
  removed : Dlist
  removed = (dlist_remove st.pobjects fd).1

  after : State W
  after = record st {
    objects = update st.objects ptr none;
    pobjects = removed;
    world = (call_close drivers obj.node st.world).1;
  }

  vfs_close-after :
      vfs_close drivers dtors st fd ≡ some ((call_close drivers obj.node st.world).0, after)
  unfolding vfs_close pobj_free after removed
  vfs_close-after = let no_dtor : (obj.base_dtor == 0) ≡ true = ground arith in rw (e, no_dtor) refl

  closed : vfs_get_pobj after fd ≡ refused (neg error_not_found)
  unfolding after removed
  closed =
      let file = get_pobj-IsFile st fd ptr obj e in
      let (_, gone, _, _, _) = dlist_remove-slot table fd in
      get_pobj-not_found after fd
        (ap (ltb fd) (dlist_remove-allocated st.pobjects fd) ∙ file.allocated) gone

  untouched :
      (k p : ℕ) (o : FileObj)
      → k ≢ fd
      → vfs_get_pobj st k ≡ found p o
      → vfs_get_pobj after k ≡ found p o
  unfolding after removed
  untouched k p o ne open_k =
      let file = get_pobj-IsFile st k p o open_k in
      let (_, _, kept, _, _) = dlist_remove-slot table fd in
      let apart : p ≢ ptr = λ same. alone k ne (file.here ∙ same) in
      IsFile-found after k (record {
        here = kept k ne ∙ file.here;
        ne_null = file.ne_null;
        live = ground (arith, file.live);
        type = file.type;
        allocated = ap (ltb k) (dlist_remove-allocated st.pobjects fd) ∙ file.allocated;
      })

  -- `vfs_close` of an open file, in a valid object table where no other descriptor stands for the same
  -- object, returns what the driver's `close` returns. From then on the descriptor is not found, and
  -- every other descriptor that stood for a file stands for the same one. (The object has no
  -- destructor.)
  pub vfs_close-refused :
      (st' : State W) × (vfs_close drivers dtors st fd
        ≡ some ((call_close drivers obj.node st.world).0, st'))
      × (vfs_get_pobj st' fd ≡ refused (neg error_not_found))
      × ((k p : ℕ) (o : FileObj)
          → k ≢ fd
          → vfs_get_pobj st k ≡ found p o
          → vfs_get_pobj st' k ≡ found p o)
  vfs_close-refused = (after, vfs_close-after, closed, untouched)
