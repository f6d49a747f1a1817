-- ===== src/Ramfs/Dirs.antt =====
-- `ramfs_open_node` that makes a file, and the lookup that finds it.
use helix_os.Common.{ℕ, ◌+◌, ◌<◌, ◌≡◌, ◌≢◌, false, Option, some, List, [], ◌+w◌}
use helix_os.Dlist.{Dlist, dlist_get, dlist_add}
use helix_os.Dlist.Table.{IsTable}
use helix_os.Dynstring.{dstring_create}
use helix_os.Vfs.{FileNode, update}
use helix_os.Ramfs.{
  RamfsHead, RamfsNode, RamfsDirent, Fresh, entries_of, chars_of, same_name, file_type_dir,
  set_contents, zero_ramfs_node,
}

-- The entry at an address has another name.
unfoldable pub IsOther : (ℕ → Option RamfsDirent) → List ℕ → ℕ → Type 0
IsOther dirents name pointer =
    (entry : RamfsDirent) × (dirents pointer ≡ some entry) × (same_name name entry.name ≡ false)

-- A directory to which an entry of a new name can be added: its node is at `dir`.
pub record CanAdd (head : RamfsHead) (fresh : Fresh) (node : FileNode) (rnode : RamfsNode)
    (list : Dlist) (name : List ℕ) : Type 0 where
  pub there : dlist_get head.nodes node.inode ≢ 0
  pub stored : head.node_at (dlist_get head.nodes node.inode) ≡ some rnode
  pub is_dir : rnode.type ≡ file_type_dir
  pub lists : rnode.contents ≡ entries_of list
  pub nodes : IsTable head.nodes
  pub nodes_grow : head.nodes.alloced + head.nodes.block_size < 256
  pub entries : IsTable list
  pub entries_grow : list.alloced + list.block_size < 256
  pub new_node : fresh.node ≢ 0
  pub apart_node : fresh.node ≢ dlist_get head.nodes node.inode
  pub new_dirent : fresh.dirent ≢ 0
  pub apart_dirent : (k : ℕ) → dlist_get list k ≢ fresh.dirent
  pub new_name : (k : ℕ) → dlist_get list k ≢ 0 → IsOther head.dirent_at name (dlist_get list k)

module _ (fill : ℕ → ℕ) (head : RamfsHead) (fresh : Fresh) (node : FileNode) (rnode : RamfsNode)
    (list : Dlist) (name : List ℕ) where
  abbrev pub new_inode : ℕ
  new_inode = (dlist_add fill head.nodes fresh.node).0

  abbrev new_file : RamfsNode
  new_file = record zero_ramfs_node { name = name; inode = new_inode }

  -- The file system after a file was made.
  abbrev pub with_file : RamfsHead
  with_file =
      set_contents
        (record head {
          nodes = (dlist_add fill head.nodes fresh.node).1;
          nnodes = head.nnodes +w 1;
          node_at =
              update
                (update head.node_at (dlist_get head.nodes node.inode) (
                  some
                    (record rnode { contents = entries_of (dlist_add fill list fresh.dirent).1 })))
                fresh.node (some new_file);
          dirent_at =
              update head.dirent_at fresh.dirent (some (record { name = name; inode = new_inode }));
        })
        fresh.node new_file (chars_of (dstring_create []))
