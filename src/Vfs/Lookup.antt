-- ===== src/Vfs/Lookup.antt =====
-- Path lookup of kernel/base/vfs/vfs.c. A path is the list of its bytes up to the NUL, and a name of
-- it is at most 256 bytes long. The two node buffers that the source takes in turn are values.
pub mod Walk
use helix_os.Common.{
  ℕ, zero, suc, ◌+◌, ◌^◌, ◌≡◌, Bool, true, false, Option, none, some, List, [], ◌∷◌, ◌==◌,
  if◌then◌else◌, length, ◌>>=◌,
}
use helix_os.Vfs.{FileNode, Funcs, State, neg, error_not_found, call_lookup}

-- `for ( i = 0; i < 256 && pathptr[i] && pathptr[i] != '/'; i++ )`: the name, and what follows it.
unfoldable pub next_name : ℕ → List ℕ → List ℕ × List ℕ
next_name zero path = ([], path)
next_name (suc left) [] = ([], [])
next_name (suc left) (c ∷ path) =
    let (name, rest) = next_name left path in if c == b'/' then ([], c ∷ path) else (c ∷ name, rest)

-- `if ( *pathptr == '/' ) pathptr++;`
unfoldable pub skip_slash : List ℕ → List ℕ
skip_slash [] = []
skip_slash (c ∷ path) = if c == b'/' then path else c ∷ path

-- `strcmp( namebuf, "." ) == 0`
unfoldable pub is_dot : List ℕ → Bool
is_dot [] = false
is_dot (c ∷ []) = c == b'.'
is_dot (c ∷ d ∷ name) = false

-- `roots` gives the root node of the file system that is mounted at a mount point.
unfoldable pub mounted : (ℕ → FileNode) → FileNode → FileNode
mounted roots node = if node.mount == 0 then node else roots node.mount

unfoldable pub get_local_vfs_root : {W : Type 0} → State W → ℕ
get_local_vfs_root st = if st.froot == 0 then st.vfs_root else st.froot

unfoldable pub get_current_dir : {W : Type 0} → State W → ℕ
get_current_dir st = if st.curdir == 0 then get_local_vfs_root st else st.curdir

module _ {W : Type 0} (drivers : ℕ → Funcs W) (roots : ℕ → FileNode) (flags : ℕ) where
  -- The loop of `file_lookup_relative`: its result is that of the lookup that failed, or 0.
  unfoldable pub lookup_loop : ℕ → FileNode → List ℕ → W → Option (ℕ × FileNode × W)
  lookup_loop zero move path world = none
  lookup_loop (suc fuel) move [] world = some (0, move, world)
  lookup_loop (suc fuel) move (c ∷ path) world =
      let (name, rest) = next_name 256 (c ∷ path) in
      let (ret, node, world') = call_lookup drivers move name flags world in
      let skipped = lookup_loop fuel move (skip_slash rest) world in
      let down = lookup_loop fuel (mounted roots node) (skip_slash rest) world' in
      if is_dot name then skipped else (if ret == 0 then down else some (ret, move, world'))

  -- The path has as many rounds at most as bytes. The buffer `buf` is written where nothing failed.
  unfoldable pub file_lookup_relative : List ℕ → FileNode → FileNode → W → Option (ℕ × FileNode × W)
  file_lookup_relative path node buf world = do
    (ret, move, world') ← lookup_loop (length path + 1) node path world
    some (ret, if ret == 0 then move else buf, world')

  -- After a leading `/`.
  unfoldable pub lookup_from_root : List ℕ → FileNode → State W → Option (ℕ × FileNode × W)
  lookup_from_root [] buf st = do node ← st.nodes (get_local_vfs_root st); some (0, node, st.world)
  lookup_from_root (c ∷ path) buf st = do
    node ← st.nodes (get_local_vfs_root st)
    file_lookup_relative (c ∷ path) node buf st.world

  unfoldable pub lookup_from_dir : List ℕ → FileNode → State W → Option (ℕ × FileNode × W)
  lookup_from_dir path buf st = do
    node ← st.nodes (get_current_dir st)
    file_lookup_relative path node buf st.world

  unfoldable pub file_lookup : List ℕ → FileNode → State W → Option (ℕ × FileNode × W)
  unfolding lookup_from_root lookup_from_dir
  file_lookup [] buf st = lookup_from_dir [] buf st
  file_lookup (c ∷ path) buf st =
      if c == b'/' then lookup_from_root path buf st else lookup_from_dir (c ∷ path) buf st

  pub file_lookup_absolute : List ℕ → FileNode → State W → Option (ℕ × FileNode × W)
  file_lookup_absolute [] buf st = some (neg error_not_found, buf, st.world)
  file_lookup_absolute (c ∷ path) buf st =
      if get_local_vfs_root st == 0
      then some (neg error_not_found, buf, st.world)
      else (if c == b'/'
          then (st.nodes (get_local_vfs_root st) >>= λ node.
              file_lookup_relative path node buf st.world)
          else some (neg error_not_found, buf, st.world))
