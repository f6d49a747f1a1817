-- ===== src/Ramfs/Tests.antt =====
-- Runs of the file system in memory, and its theorems at concrete directories and files.
use helix_os.Common.{ℕ, none, some, [], ◌∷◌}
use helix_os.Dlist.{Dlist}
use helix_os.Dynstring.{Dynstring}
use helix_os.Vfs.{update}
use helix_os.Ramfs.{RamfsHead, RamfsNode, RamfsDirent, Fresh, entries_of, chars_of, zero_ramfs_node}

-- Two slots, the first of them taken.
abbrev one_of_two : ℕ → Dlist
one_of_two pointer = record {
  entries = pointer ∷ 0 ∷ [];
  used = 0;
  alloced = 2;
  block_size = 2;
  blocks_alloced = 1;
}

abbrev root : RamfsNode
root = record zero_ramfs_node { type = 2; contents = entries_of (one_of_two 40) }

abbrev test_entry : RamfsDirent
test_entry = record { name = b't' ∷ []; inode = 7 }

-- The root of a file system, at inode 0, with an entry.
abbrev disk : RamfsHead
disk = record {
  nodes = one_of_two 20;
  fs = 9;
  nnodes = 1;
  root_inode = 0;
  node_at = update (λ a. none) 20 (some root);
  dirent_at = update (λ a. none) 40 (some test_entry);
}

abbrev blocks : Fresh
blocks = record { node = 30; dirent = 50 }

-- A file whose block has a fourth byte behind its three.
abbrev text : Dynstring
text = record { string = 1 ∷ 2 ∷ 3 ∷ 0 ∷ []; size = 3; alloced = 1; block_size = 4; references = 0 }

abbrev file : Dynstring → RamfsNode
file string = record zero_ramfs_node { contents = chars_of string }

abbrev disk_of : Dynstring → RamfsHead
disk_of string = record disk { node_at = update (λ a. none) 20 (some (file string)) }
