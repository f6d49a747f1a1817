-- ===== src/Vfs/Errors.antt =====
-- The calls of kernel/base/vfs/vfs_syscalls.c on a descriptor that stands for no file.
use helix_os.Common.{
  ℕ, ◌≡◌, ◌≢◌, refl, false, some, List, [], arith, ◌==◌, ltb, if◌then◌else◌, Bool-cases, inl, inr,
}
use helix_os.Dlist.{dlist_allocated, dlist_get}
use helix_os.Vfs.{
  Funcs, State, refused, vfs_get_pobj, vfs_read, vfs_write, vfs_readdir, vfs_close, vfs_spawn, neg,
  error_not_found, error_invalid_argument,
}
use helix_os.Vfs.Seek.{vfs_fcntl, vfs_fcntl-refused}

module _ {W : Type 0} (drivers : ℕ → Funcs W) (dtors : ℕ → ℕ → State W → State W) (schedule : W → W)
    (elfload : List ℕ → W → ℕ × W) (st : State W) (fd : ℕ) where
  -- Every call refuses the descriptor with the same error and leaves the state as it is.
  abbrev pub AllRefuse : ℕ → Type 0
  AllRefuse e =
      ((fuel length : ℕ)
        → length ≢ 0
        → vfs_read drivers schedule fuel st fd length ≡ some (e, [], st))
      × ((fuel length : ℕ) (bytes : List ℕ)
          → length ≢ 0
          → vfs_write drivers schedule fuel st fd bytes length ≡ some (e, st))
      × ((entry : ℕ) → vfs_readdir drivers st fd entry ≡ some (e, st))
      × (vfs_close drivers dtors st fd ≡ some (e, st))
      × ((fuel : ℕ) → vfs_spawn drivers elfload schedule fuel st fd ≡ some (e, st))
      × ((command arg : ℕ) → vfs_fcntl st fd command arg ≡ some (e, st))

  refused-AllRefuse : (e : ℕ) → vfs_get_pobj st fd ≡ refused e → AllRefuse e
  unfolding vfs_read vfs_write vfs_readdir vfs_close vfs_spawn
  refused-AllRefuse e bad = (
    λ fuel length ne.
        let some_byte : (length == 0) ≡ false = ground arith in rw (some_byte, bad) refl,
    λ fuel length bytes ne.
        let some_byte : (length == 0) ≡ false = ground arith in rw (some_byte, bad) refl,
    λ entry. rw bad refl,
    rw bad refl,
    λ fuel. rw bad refl,
    λ command arg. vfs_fcntl-refused drivers st fd command arg e bad,
  )

  -- A descriptor beyond the object table, or an empty one within it: reads and writes of some byte,
  -- `readdir`, `close`, `spawn` and `fcntl` return `-ERROR_INVALID_ARGUMENT` for the first and
  -- `-ERROR_NOT_FOUND` for the second, and none of them changes anything.
  pub bad_descriptor-AllRefuse :
      dlist_get st.pobjects fd ≡ 0
      → AllRefuse (
          if ltb fd (dlist_allocated st.pobjects)
          then neg error_not_found
          else neg error_invalid_argument)
  unfolding vfs_get_pobj
  bad_descriptor-AllRefuse empty =
      refused-AllRefuse _ (elim (Bool-cases (ltb fd (dlist_allocated st.pobjects))) [
        | inl inside ↦ rw (inside, empty) refl
        | inr outside ↦ rw outside refl
      ])
