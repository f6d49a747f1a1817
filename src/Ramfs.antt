-- ===== src/Ramfs.antt =====
-- kernel/base/vfs/ramfs/ramfs.c: files and directories in memory. Nodes and directory entries are in
-- stores by address. An `int` is its 32-bit pattern. `none` is an access to memory that was not set,
-- that is gone, or that holds something else.
pub mod Files
pub mod Dirs
mod Tests
use helix_os.Common.{
  ℕ, zero, suc, ◌+◌, ◌-◌, ◌*◌, ◌/◌, ◌%◌, ◌^◌, Bool, true, false, not, ◌&&◌, Option, none, some,
  List, [], ◌∷◌, take, length, get_elem?, get_or, ltb, ◌==◌, if◌then◌else◌, ◌+w◌, ◌>>=◌,
}
use helix_os.Dlist.{Dlist, dlist_create, dlist_add, dlist_get, dlist_set}
use helix_os.Dynstring.{Dynstring, dstring_create, dstring_set_char}
use helix_os.Vfs.{FileNode, neg, succeeds, update, error_not_found, error_invalid_argument}

abbrev pub error_not_directory : ℕ
error_not_directory = 3

abbrev pub error_is_directory : ℕ
error_is_directory = 4

abbrev pub file_type_dir : ℕ
file_type_dir = 2

-- `flags & FILE_CREATE`
abbrev pub wants_create : ℕ → Bool
wants_create flags = flags / 4 % 2 == 1

-- `ramfs_dirent_t`
pub record RamfsDirent : Type 0 where
  pub name : List ℕ
  pub inode : ℕ

-- What `data` points to.
pub data Contents : Type 0 where
  no_data : Contents
  entries_of : Dlist → Contents
  chars_of : Dynstring → Contents

-- `ramfs_node_t`, with the fields of `file_info_t` that are set.
pub record RamfsNode : Type 0 where
  pub name : List ℕ
  pub contents : Contents
  pub type : ℕ
  pub mask : ℕ
  pub inode : ℕ
  pub links : ℕ
  pub mount : ℕ

-- `ramfs_head_t`, with the memory that it leads to.
pub record RamfsHead : Type 0 where
  pub nodes : Dlist
  pub fs : ℕ
  pub nnodes : ℕ
  pub root_inode : ℕ
  pub node_at : ℕ → Option RamfsNode
  pub dirent_at : ℕ → Option RamfsDirent

-- What `knew` returns.
abbrev pub zero_ramfs_node : RamfsNode
zero_ramfs_node = record {
  name = [];
  contents = no_data;
  type = 0;
  mask = 0;
  inode = 0;
  links = 0;
  mount = 0;
}

-- The result is written to a pointer; NULL is an error.
pub ramfs_get_internal_node : RamfsHead → ℕ → ℕ × ℕ
ramfs_get_internal_node head inode =
    let temp = dlist_get head.nodes inode in
    if temp == 0 then (neg error_not_found, 0) else (0, temp)

-- The pointer of a caller that does not look at the result: it is not set where there is no node.
pub set_pointer : RamfsHead → ℕ → Option ℕ
set_pointer head inode =
    let (ret, temp) = ramfs_get_internal_node head inode in if ret == 0 then some temp else none

pub ramfs_get_node : RamfsHead → FileNode → ℕ → Option (ℕ × FileNode)
ramfs_get_node head buf inode =
    let temp = dlist_get head.nodes inode in
    let found = head.node_at temp >>= λ node.
    some (0, record buf { inode = node.inode; flags = 0; mount = node.mount; fs = head.fs }) in
    if temp == 0 then some (neg error_not_found, buf) else found

-- The type that `ramfs_node_get_info` leaves in the buffer; for an inode without a node the buffer is
-- not written, and its callers read it all the same.
pub ramfs_node_get_info : RamfsHead → FileNode → Option ℕ
ramfs_node_get_info head node =
    let temp = dlist_get head.nodes node.inode in
    let found = head.node_at temp >>= λ rnode. some rnode.type in if temp == 0 then none else found

-- `strcmp( name, dirbuf->name ) == 0`
pub same_name : List ℕ → List ℕ → Bool
same_name [] [] = true
same_name [] (d ∷ ds) = false
same_name (c ∷ cs) [] = false
same_name (c ∷ cs) (d ∷ ds) = c == d && same_name cs ds

-- The loop over the entries; the third argument is `alloced - listptr`.
pub find_entry : (ℕ → Option RamfsDirent) → List ℕ → ℕ → ℕ → List ℕ → Option ℕ
find_entry dirents entries zero listptr name = some (neg 1)
find_entry dirents entries (suc left) listptr name =
    let rest = find_entry dirents entries left (listptr + 1) name in
    let here = dirents (get_or entries listptr 0) >>= λ dirbuf.
    if same_name name dirbuf.name then some dirbuf.inode else rest in
    if get_or entries listptr 0 == 0 then rest else here

-- The dlist of a directory.
pub directory : Contents → Option Dlist
directory no_data = none
directory (entries_of list) = some list
directory (chars_of string) = none

pub file_chars : Contents → Option Dynstring
file_chars no_data = none
file_chars (entries_of list) = none
file_chars (chars_of string) = some string

pub ramfs_dir_findnode : RamfsHead → FileNode → List ℕ → Option ℕ
ramfs_dir_findnode head node name = do
  address ← set_pointer head node.inode
  rnodebuf ← head.node_at address
  dlist ← directory rnodebuf.contents
  find_entry head.dirent_at dlist.entries dlist.alloced 0 name

pub ramfs_node_lookup : RamfsHead → FileNode → FileNode → List ℕ → Option (ℕ × FileNode)
ramfs_node_lookup head node buf name = do
  type ← ramfs_node_get_info head node
  let search = ramfs_dir_findnode head node name >>= λ inode.
      if succeeds inode
      then (ramfs_get_node head buf inode >>= λ r. some (0, r.1))
      else some (neg error_not_found, buf)
  if type == file_type_dir then search else some (neg error_not_directory, buf)

pub ramfs_close_node : FileNode → ℕ → ℕ
ramfs_close_node node flags = 0

-- The bytes from `place` on are stored one by one.
pub write_chars : (ℕ → ℕ) → Dynstring → List ℕ → ℕ → Option Dynstring
write_chars fill string [] pos = some string
write_chars fill string (c ∷ buffer) pos =
    dstring_set_char fill string pos c >>= λ string'. write_chars fill string' buffer (pos +w 1)

abbrev pub set_contents : RamfsHead → ℕ → RamfsNode → Contents → RamfsHead
set_contents head address rnode contents = record head {
  node_at = update head.node_at address (some (record rnode { contents = contents }));
}

pub write_file : (ℕ → ℕ) → RamfsHead → ℕ → RamfsNode → List ℕ → ℕ → Option (ℕ × RamfsHead)
write_file fill head address rnode buffer offset = do
  string ← file_chars rnode.contents
  string' ← write_chars fill string buffer offset
  some (length buffer, set_contents head address rnode (chars_of string'))

pub ramfs_write_node : (ℕ → ℕ) → RamfsHead → FileNode → List ℕ → ℕ → Option (ℕ × RamfsHead)
ramfs_write_node fill head node buffer offset =
    let (ret, address) = ramfs_get_internal_node head node.inode in
    let found = head.node_at address >>= λ rnode.
    if rnode.type == file_type_dir
    then some (neg error_is_directory, head)
    else write_file fill head address rnode buffer offset in
    if ret == 0 then found else some (ret, head)

-- `place + offset <= dstrbuf->length`; the first argument is `length - place`.
pub read_chars : ℕ → Dynstring → ℕ → ℕ → Option (List ℕ)
read_chars zero string place offset = some []
read_chars (suc left) string place offset =
    let rest = get_elem? string.string (place +w offset) >>= λ c.
    read_chars left string (place + 1) offset >>= λ foo. some (c ∷ foo) in
    if ltb string.size (place +w offset) then some [] else rest

-- The result is the number of the bytes that are returned beside it.
pub ramfs_read_node : RamfsHead → FileNode → ℕ → ℕ → Option (ℕ × List ℕ)
ramfs_read_node head node count offset =
    let (ret, address) = ramfs_get_internal_node head node.inode in
    let found = head.node_at address >>= λ rnode. file_chars rnode.contents >>= λ dstrbuf.
    read_chars count dstrbuf 0 offset >>= λ foo. some (length foo, foo) in
    if ret == 0 then found else some (ret, [])

-- `dirent_t`; `none` beside the result is a buffer that is left alone.
pub record Dirent : Type 0 where
  pub name : List ℕ
  pub inode : ℕ
  pub offset : ℕ

pub read_entry : RamfsHead → RamfsNode → ℕ → Option (ℕ × Option Dirent)
read_entry head rnode entry = do
  dlist ← directory rnode.contents
  let pointer = dlist_get dlist entry
  let filled = head.dirent_at pointer >>= λ dirbuf.
      some (1, some (record { name = take 256 dirbuf.name; inode = dirbuf.inode; offset = entry }))
  if pointer == 0 then some (0, none) else filled

pub ramfs_readdir_node : RamfsHead → FileNode → ℕ → Option (ℕ × Option Dirent)
ramfs_readdir_node head node entry =
    let (foo, address) = ramfs_get_internal_node head node.inode in
    let found = head.node_at address >>= λ rnode.
    if rnode.type == file_type_dir
    then read_entry head rnode entry
    else some (neg error_not_directory, none) in
    if succeeds foo then found else some (neg error_not_found, none)

-- The addresses of the blocks that a call allocates.
pub record Fresh : Type 0 where
  pub node : ℕ
  pub dirent : ℕ

-- `dir` is the address of the directory's node; the new node is at `fresh.node`.
pub ramfs_add_node : (ℕ → ℕ) → Fresh → RamfsHead → ℕ → List ℕ → Option (RamfsNode × RamfsHead)
ramfs_add_node fill fresh head dir name = do
  rnode ← head.node_at dir
  dlist ← directory rnode.contents
  let (inode, nodes) = dlist_add fill head.nodes fresh.node
  let ret = record zero_ramfs_node { name = name; inode = inode }
  let (slot, dlist') = dlist_add fill dlist fresh.dirent
  some (
    ret,
    record head {
      nodes = nodes;
      nnodes = head.nnodes +w 1;
      node_at =
          update (update head.node_at dir (some (record rnode { contents = entries_of dlist' })))
            fresh.node (some ret);
      dirent_at = update head.dirent_at fresh.dirent (some (record { name = name; inode = inode }));
    },
  )

pub ramfs_open_node : (ℕ → ℕ) → Fresh → RamfsHead → FileNode → List ℕ → ℕ → Option (ℕ × RamfsHead)
ramfs_open_node fill fresh head node path flags = do
  type ← ramfs_node_get_info head node
  let create = do
    dir ← set_pointer head node.inode
    (rnode, head') ← ramfs_add_node fill fresh head dir path
    some (rnode.inode, set_contents head' fresh.node rnode (chars_of (dstring_create [])))
  let search = ramfs_dir_findnode head node path >>= λ inode.
      if succeeds inode
      then some (inode, head)
      else (if wants_create flags then create else some (neg error_not_found, head))
  if type == file_type_dir then search else some (neg error_not_directory, head)

pub ramfs_mkdir_node : (ℕ → ℕ) → Fresh → RamfsHead → FileNode → List ℕ → Option (ℕ × RamfsHead)
ramfs_mkdir_node fill fresh head node name = do
  type ← ramfs_node_get_info head node
  let create = do
    dir ← set_pointer head node.inode
    (rnode, head') ← ramfs_add_node fill fresh head dir name
    some (
      0,
      set_contents head' fresh.node (record rnode { type = file_type_dir })
          (entries_of (dlist_create 0 0)),
    )
  if type == file_type_dir then create else some (neg error_not_directory, head)

-- `mount` is the mount point that `file_register_mount` returns; 0 stands for a NULL argument.
pub ramfs_mount_node : RamfsHead → Option FileNode → Option ℕ → Option (ℕ × RamfsHead)
ramfs_mount_node head (some node) (some mount) = do
  address ← set_pointer head node.inode
  rfsbuf ← head.node_at address
  some (
    0,
    record head { node_at = update head.node_at address (some (record rfsbuf { mount = mount })) },
  )
ramfs_mount_node head none mount = some (neg error_invalid_argument, head)
ramfs_mount_node head (some node) none = some (neg error_invalid_argument, head)

abbrev pub root_node : RamfsNode
root_node = record {
  name = b'r' ∷ b'o' ∷ b'o' ∷ b't' ∷ [];
  contents = entries_of (dlist_create 0 0);
  type = file_type_dir;
  mask = 511;
  inode = 0;
  links = 1;
  mount = 0;
}

abbrev pub new_ramfs : ℕ → ℕ → RamfsHead
new_ramfs root fs = record {
  nodes = (dlist_set (dlist_create 0 0) 0 root).1;
  fs = fs;
  nnodes = 1;
  root_inode = 0;
  node_at = update (λ a. none) root (some root_node);
  dirent_at = λ a. none;
}

-- `root` is the address of the root's node, `fs` that of the file system; the result has the root as a
-- file node, too.
pub create_ramfs : (ℕ → ℕ) → Fresh → ℕ → ℕ → FileNode → Option (FileNode × RamfsHead)
create_ramfs fill fresh root fs buf = do
  let head = new_ramfs root fs
  (ret, fs_root) ← ramfs_get_node head buf 0
  (made, head') ←
      ramfs_mkdir_node fill fresh head (record fs_root { fs = fs }) (b't' ∷ b'e' ∷ b's' ∷ b't' ∷ [])
  some (record fs_root { fs = fs }, head')
