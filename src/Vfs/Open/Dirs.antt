-- ===== src/Vfs/Open/Dirs.antt =====
-- `vfs_chdir` where the lookup succeeds, and where it fails.
use helix_os.Common.{
  ℕ, ◌≡◌, ◌≢◌, refl, true, false, ◌∷◌, none, some, List, arith, ◌==◌, if◌then◌else◌,
}
use helix_os.Vfs.{FileNode, Funcs, State, update, succeeds}
use helix_os.Vfs.Lookup.{file_lookup, lookup_from_dir, get_current_dir}
use helix_os.Vfs.Open.{dir_buf, write_dir, vfs_chdir}

module _ {W : Type 0} (drivers : ℕ → Funcs W) (roots : ℕ → FileNode) (fresh : ℕ) (st : State W)
    (path : List ℕ) (buf : FileNode) (has_dir : st.curdir ≢ 0)
    (live : st.nodes st.curdir ≡ some buf) where
  chdir_buf : dir_buf st st.curdir ≡ some buf
  unfolding dir_buf
  chdir_buf = let e : (st.curdir == 0) ≡ false = ground arith in rw e live

  same_ptr : (if st.curdir == 0 then fresh else st.curdir) ≡ st.curdir
  same_ptr = ground arith

  -- A task that has a current directory, whose node is there, and changes it to a path whose lookup
  -- fails, gets the error of the lookup. It keeps its pointer to the node, but the node is freed: from
  -- that state every lookup of a path that does not begin with a slash reads a block that is gone.
  pub vfs_chdir_dangles :
      (ret : ℕ) (node : FileNode) (world : W)
      → file_lookup drivers roots 0 path buf st ≡ some (ret, node, world)
      → succeeds ret ≡ false
      → (st' : State W) × (vfs_chdir drivers roots fresh st path ≡ some (ret, st'))
        × (get_current_dir st' ≡ st.curdir)
        × (st'.nodes (get_current_dir st') ≡ none)
        × ((flags c : ℕ) (rest : List ℕ) (buf' : FileNode)
            → c ≢ b'/'
            → file_lookup drivers roots flags (c ∷ rest) buf' st' ≡ none)
  unfolding vfs_chdir write_dir get_current_dir file_lookup lookup_from_dir
  vfs_chdir_dangles ret node world e bad =
      let ne : (st.curdir == 0) ≡ false = ground arith in
      (
        record st { nodes = update st.nodes st.curdir none; world = world },
        rw (chdir_buf, e, bad, ne) refl,
        rw ne refl,
        rw ne (ground arith),
        λ flags c rest buf' relative.
            let no_slash : (c == b'/') ≡ false = ground arith in
            let self : (st.curdir == st.curdir) ≡ true = ground arith in
            rw (no_slash, ne, self) refl,
      )
