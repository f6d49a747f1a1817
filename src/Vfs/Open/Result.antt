-- ===== src/Vfs/Open/Result.antt =====
-- What `vfs_open` leaves, once the path has been resolved.
use helix_os.Common.{ℕ, ◌≡◌, refl, false, some, List, ◌∷◌, arith, if◌then◌else◌}
use helix_os.Vfs.{FileNode, Funcs, State, succeeds, neg, error_not_found}
use helix_os.Vfs.Open.{failed, resolve, add_obj, vfs_open}

module _ {W : Type 0} (drivers : ℕ → Funcs W) (roots : ℕ → FileNode) (fill : ℕ → ℕ) (fresh : ℕ)
    (st : State W) (c : ℕ) (path : List ℕ) (flags : ℕ) where
  -- Where the path is not resolved, `vfs_open` returns an error and touches neither the table nor any
  -- object.
  pub vfs_open-failed :
      (ret : ℕ) (world : W)
      → resolve drivers roots (c ∷ path) flags st ≡ some (failed ret world)
      → (error : ℕ) × (st' : State W) × (vfs_open drivers roots fill fresh st (c ∷ path) flags
          ≡ some (error, st'))
        × (succeeds error ≡ false)
        × (st'.objects ≡ st.objects)
        × (st'.pobjects ≡ st.pobjects)
  unfolding vfs_open add_obj
  vfs_open-failed ret world e = (
    if succeeds ret then neg error_not_found else ret,
    record st { world = world },
    rw e refl,
    ground arith,
    refl,
    refl,
  )
