-- ===== src/Vfs/Open.antt =====
-- `vfs_open`, `vfs_chdir` and `vfs_chroot`. A path is the list of its bytes. `fill` is what
-- the memory of a new block held, for the object table, and `fresh` the block that `knew` returns.
pub mod Result
pub mod Dirs
use helix_os.Common.{
  ℕ, zero, suc, ◌+◌, ◌-◌, ◌^◌, Bool, true, false, Option, none, some, List, [], ◌∷◌, ◌==◌,
  if◌then◌else◌, length, take, drop, get_or, ◌>>=◌,
}
use helix_os.Dlist.{dlist_add}
use helix_os.Vfs.{
  FileNode, FileObj, Funcs, State, neg, error_not_found, succeeds, file_pobj, zero_node, zero_obj,
  update, call_open,
}
use helix_os.Vfs.Lookup.{file_lookup, file_lookup_absolute, get_local_vfs_root, get_current_dir}

-- `for ( i = strlen( path ); i; i-- )`: one more than the index of the last slash.
unfoldable pub last_slash : ℕ → List ℕ → Option ℕ
last_slash zero path = none
last_slash (suc i) path =
    let rest = last_slash i path in if get_or path i 0 == b'/' then some (suc i) else rest

abbrev pub new_obj : FileNode → FileObj
new_obj node = record zero_obj { base_type = file_pobj; node = node }

-- Whether the file is there to be added to the table, or the last value of `lookup`.
pub data Resolved (W : Type 0) : Type 0 where
  ready : FileNode → W → Resolved W
  failed : ℕ → W → Resolved W

abbrev pub is_empty : List ℕ → Bool
is_empty [] = true
is_empty (c ∷ cs) = false

pub add_obj : {W : Type 0} → (ℕ → ℕ) → ℕ → State W → Resolved W → ℕ × State W
add_obj fill fresh st (ready node world) =
    let (ret, table) = dlist_add fill st.pobjects fresh in
    (
      ret,
      record st {
        objects = update st.objects fresh (some (new_obj node));
        pobjects = table;
        world = world;
      },
    )
add_obj fill fresh st (failed ret world) =
    (if succeeds ret then neg error_not_found else ret, record st { world = world })

-- `vfs_chdir`: the node that the directory has already is written in place, and freed where the
-- lookup fails. A new one is cleared.
pub dir_buf : {W : Type 0} → State W → ℕ → Option FileNode
dir_buf st ptr = if ptr == 0 then some zero_node else st.nodes ptr

pub write_dir : {W : Type 0} → State W → ℕ → ℕ × FileNode × W → ℕ × State W
write_dir st ptr (ret, node, world) = (
  ret,
  record st {
    nodes = update st.nodes ptr (if succeeds ret then some node else none);
    world = world;
  },
)

abbrev dir_ptr : ℕ → ℕ → ℕ
dir_ptr ptr fresh = if ptr == 0 then fresh else ptr

module _ {W : Type 0} (drivers : ℕ → Funcs W) (roots : ℕ → FileNode) where
  -- The driver opens `name` in `dir`; the node is then looked up by the whole path, into `buf`.
  unfoldable pub open_in : FileNode → List ℕ → List ℕ → ℕ → FileNode → State W → Option (Resolved W)
  open_in dir name path flags buf st =
      let (ret, world) = call_open drivers dir name flags st.world in
      if succeeds ret
      then (file_lookup drivers roots 0 path buf (record st { world = world }) >>= λ r.
          some (ready r.1 r.2))
      else some (failed ret world)

  -- What follows the lookup of the directory.
  unfoldable pub open_below : List ℕ → List ℕ → ℕ → State W → ℕ × FileNode × W → Option (Resolved W)
  open_below name path flags st (ret, dir, world) =
      if ret == 0
      then (if is_empty name
          then some (ready dir world)
          else open_in dir name path flags dir (record st { world = world }))
      else some (failed ret world)

  -- `i` is one more than the index of the last slash.
  unfoldable pub open_path : List ℕ → ℕ → State W → Option ℕ → Option (Resolved W)
  open_path path flags st none = do
    dir ← st.nodes (get_current_dir st)
    open_in dir path path flags zero_node st
  open_path path flags st (some i) = do
    r ←
        (if is_empty (take (i - 1) path)
          then file_lookup_absolute drivers roots 0 (b'/' ∷ []) zero_node st
          else file_lookup drivers roots 0 (take (i - 1) path) zero_node st)
    open_below (drop i path) path flags st r

  unfoldable pub resolve : List ℕ → ℕ → State W → Option (Resolved W)
  resolve path flags st = open_path path flags st (last_slash (length path) path)

  pub vfs_open : (ℕ → ℕ) → ℕ → State W → List ℕ → ℕ → Option (ℕ × State W)
  vfs_open fill fresh st [] flags = some (neg error_not_found, st)
  vfs_open fill fresh st (c ∷ path) flags = do
    r ← resolve (c ∷ path) flags st
    some (add_obj fill fresh st r)

  pub vfs_chdir : ℕ → State W → List ℕ → Option (ℕ × State W)
  vfs_chdir fresh st path = do
    buf ← dir_buf st st.curdir
    r ← file_lookup drivers roots 0 path buf st
    let (ret, st') = write_dir st (dir_ptr st.curdir fresh) r
    some (ret, if succeeds ret then record st' { curdir = dir_ptr st.curdir fresh } else st')

  pub vfs_chroot : ℕ → State W → List ℕ → Option (ℕ × State W)
  vfs_chroot fresh st path = do
    buf ← dir_buf st st.froot
    r ← file_lookup drivers roots 0 path buf st
    let (ret, st') = write_dir st (dir_ptr st.froot fresh) r
    some (ret, if succeeds ret then record st' { froot = dir_ptr st.froot fresh } else st')
