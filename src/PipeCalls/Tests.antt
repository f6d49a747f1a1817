-- ===== src/PipeCalls/Tests.antt =====
-- Runs of the pipe calls, and their theorems for a task whose table is empty.
use helix_os.Common.{
  ℕ, ◌≡◌, refl, true, false, Option, none, List, [], ◌∷◌, arith, replicate, length-replicate,
}
use helix_os.Dlist.{Dlist}
use helix_os.Pipe.{Pipe, new_line}
use helix_os.Pipe.Single.{new_line-IsValid}
use helix_os.Vfs.{FileNode, Funcs, State, zero_node}
use helix_os.PipeCalls.{
  World, Linked, Blocks, pipe_obj_ctor, pipe_vfs_funcs, shared_new, shared_release,
}
use helix_os.PipeCalls.Transfer.{Holds, pipe_of}
use helix_os.PipeCalls.Counts.{acquires, releases, shared_release-frees}

abbrev linked : Linked
linked = record { pipe_vfs_fs = 1; pipe_obj_ctor = 2; pipe_obj_dtor = 3; default_dtor = 4 }

abbrev no_pipe : Pipe
no_pipe = record { nbufs = 7; buf_size = 7; used = 7; readers = 7; writers = 7; sem = 7; bufs = [] }

abbrev blocks : Blocks
blocks = record {
  write_obj = 100;
  read_obj = 200;
  shared = 300;
  pipe = 400;
  unset = no_pipe;
  buffers = λ i. replicate 256 0;
}

abbrev nothing : World
nothing = record {
  shareds = λ p. record { object = 0; references = 0; dtor = 0 };
  pipes = λ p. no_pipe;
  freed = λ p. false;
}

abbrev table : Dlist
table = record {
  entries = replicate 8 0;
  used = 0;
  alloced = 8;
  block_size = 8;
  blocks_alloced = 1;
}

abbrev task : State World
task = record {
  objects = λ p. none;
  nodes = λ p. none;
  pobjects = table;
  vfs_root = 0;
  froot = 0;
  curdir = 0;
  world = nothing;
}

abbrev drivers : ℕ → Funcs World
drivers fs = pipe_vfs_funcs

abbrev ctors : ℕ → ℕ → ℕ → State World → Option (State World)
ctors ctor = pipe_obj_ctor

abbrev word : List ℕ
word = b'a' ∷ b'b' ∷ b'c' ∷ []

-- A pipe that is empty, with one writer.
abbrev waiting : World
waiting = record nothing {
  shareds = λ p. record { object = 400; references = 2; dtor = 4 };
  pipes = λ p. record no_pipe { writers = 1; bufs = new_line (replicate 256 0) 256 0 ∷ [] };
}

abbrev read_node : FileNode
read_node = record zero_node { fs = 1; private_data = 300 }

waiting-Holds : Holds (pipe_of waiting read_node) []
waiting-Holds = record {
  line = new_line (replicate 256 0) 256 0;
  one_line = refl;
  is_open = refl;
  drops = refl;
  size = refl;
  valid = new_line-IsValid (replicate 256 0) (omega (arith, length-replicate {A = ℕ} 256 0));
  holds = refl;
}

shared_release-frees_example :
    let start = acquires 2 (shared_new 300 400 4 nothing) 300 in
    let last = shared_release (releases 2 start 300) 300 in
    ((releases 1 start 300).freed 300 ≡ false)
    × ((releases 1 start 300).freed 400 ≡ false)
    × (last.freed 300 ≡ true)
    × (last.freed 400 ≡ true)
shared_release-frees_example =
    shared_release-frees 300 400 (omega arith) nothing 4 2 1 (omega arith) refl refl (omega arith)
      (omega arith)
