-- ===== src/Vfs/Tests.antt =====
-- Runs of the calls on descriptors, and their theorems at a task with one open file.
use helix_os.Common.{
  ℕ, zero, suc, ◌≡◌, ◌≢◌, refl, none, some, List, [], ◌∷◌, arith, ◌==◌, if◌then◌else◌, length, take,
  drop,
}
use helix_os.Dlist.{Dlist, dlist_get, dlist_allocated}
use helix_os.Dlist.Slots.{IsValid, occupied}
use helix_os.Vfs.{
  FileNode, FileObj, Funcs, State, found, refused, neg, error_not_found, error_invalid_argument,
  update, vfs_get_pobj, file_of, vfs_close, call_lookup, call_close, call_read,
}
use helix_os.Vfs.Lookup.{
  next_name, is_dot, lookup_loop, file_lookup_relative, lookup_from_dir, file_lookup,
  get_current_dir,
}
use helix_os.Vfs.Open.{vfs_chdir, new_obj}
use helix_os.Vfs.Open.Dirs.{vfs_chdir_dangles}
use helix_os.Vfs.Cursor.{run_reads, chunks, run_reads-chunks}
use helix_os.Vfs.Errors.{AllRefuse, bad_descriptor-AllRefuse}
use helix_os.Vfs.Close.{vfs_close-refused}

abbrev text : List ℕ
text = b'h' ∷ b'e' ∷ b'l' ∷ b'l' ∷ b'o' ∷ []

abbrev read_text : FileNode → ℕ → ℕ → ℕ → ℕ × List ℕ × ℕ
read_text node size offset world =
    (length (take size (drop offset text)), take size (drop offset text), world)

-- Every directory has an entry `a`, at the next inode.
abbrev next_inode : FileNode → List ℕ → ℕ → ℕ → ℕ × FileNode × ℕ
next_inode node [] flags world = (neg error_not_found, node, world)
next_inode node (c ∷ name) flags world =
    if c == b'a'
    then (0, record node { inode = suc node.inode }, suc world)
    else (neg error_not_found, node, world)

abbrev accept : FileNode → List ℕ → ℕ → ℕ → ℕ × ℕ
accept node name flags world = (0, world)

abbrev drivers : ℕ → Funcs ℕ
drivers fs = record {
  read = some read_text;
  write = none;
  readdir = none;
  lookup = some next_inode;
  open_node = some accept;
  close = some (λ node world. (0, world));
  get_info = some (λ node world. (0, 5, world));
}

abbrev dir : FileNode
dir = record { inode = 2; flags = 0; fs = 0; mount = 0; private_data = 0 }

abbrev roots : ℕ → FileNode
roots mount = dir

abbrev opened : FileObj
opened = new_obj (record dir { inode = 7 })

abbrev table : Dlist
table = record {
  entries = 100 ∷ 0 ∷ 0 ∷ 0 ∷ [];
  used = 1;
  alloced = 4;
  block_size = 4;
  blocks_alloced = 1;
}

abbrev task : State ℕ
task = record {
  objects = update (λ p. none) 100 (some opened);
  nodes = update (λ p. none) 50 (some dir);
  pobjects = table;
  vfs_root = 50;
  froot = 0;
  curdir = 50;
  world = 0;
}

table-IsValid : IsValid table
unfolding occupied
table-IsValid = omega arith

only_one : (k : ℕ) → k ≢ 0 → dlist_get table k ≡ 0
unfolding dlist_get
only_one zero ne = absurd (ne refl)
only_one (suc zero) ne = refl
only_one (suc (suc zero)) ne = refl
only_one (suc (suc (suc zero))) ne = refl
only_one (suc (suc (suc (suc k)))) ne = ground arith

is_open : vfs_get_pobj task 0 ≡ found 100 opened
unfolding vfs_get_pobj file_of dlist_get dlist_allocated
is_open = refl

too_high : vfs_get_pobj task 9 ≡ refused (neg error_invalid_argument)
unfolding vfs_get_pobj dlist_allocated
too_high = refl

run_reads-chunks_example :
    run_reads drivers (λ w. w) 1 task 0 (2 ∷ 9 ∷ 1 ∷ []) ≡ some (chunks (2 ∷ 9 ∷ 1 ∷ []) text)
unfolding call_read
run_reads-chunks_example =
    run_reads-chunks drivers (λ w. w) 0 (2 ∷ 9 ∷ 1 ∷ []) task 0 100 opened text
      (ground arith, (ground arith, (ground arith, tt))) is_open (λ size offset. refl) (omega arith)
      (omega arith)

abbrev elfload : List ℕ → ℕ → ℕ × ℕ
elfload bytes world = (0, world)

bad_descriptor-AllRefuse_example :
    AllRefuse drivers (λ dtor ptr st. st) (λ w. w) elfload task 9 (neg error_invalid_argument)
unfolding dlist_allocated
bad_descriptor-AllRefuse_example =
    bad_descriptor-AllRefuse drivers (λ dtor ptr st. st) (λ w. w) elfload task 9
      (only_one 9 (omega arith))

vfs_close-refused_example :
    (st' : State ℕ) × (vfs_close drivers (λ dtor ptr st. st) task 0 ≡ some (0, st'))
    × (vfs_get_pobj st' 0 ≡ refused (neg error_not_found))
    × ((k p : ℕ) (o : FileObj)
        → k ≢ 0
        → vfs_get_pobj task k ≡ found p o
        → vfs_get_pobj st' k ≡ found p o)
unfolding call_close
vfs_close-refused_example =
    vfs_close-refused drivers (λ dtor ptr st. st) task 0 100 opened is_open table-IsValid
      (λ k ne. rw (only_one k ne) (omega arith)) refl

abbrev path : List ℕ
path = b'a' ∷ b'/' ∷ b'a' ∷ []

vfs_chdir_dangles_example :
    (st' : State ℕ) × (vfs_chdir drivers roots 60 task (b'x' ∷ [])
      ≡ some (neg error_not_found, st'))
    × (get_current_dir st' ≡ 50)
    × (st'.nodes (get_current_dir st') ≡ none)
    × ((flags c : ℕ) (rest : List ℕ) (buf' : FileNode)
        → c ≢ b'/'
        → file_lookup drivers roots flags (c ∷ rest) buf' st' ≡ none)
unfolding file_lookup lookup_from_dir file_lookup_relative lookup_loop next_name is_dot
    get_current_dir call_lookup
vfs_chdir_dangles_example =
    vfs_chdir_dangles drivers roots 60 task (b'x' ∷ []) dir (omega arith) refl (neg error_not_found)
      dir 0 refl refl
