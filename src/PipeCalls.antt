-- ===== src/PipeCalls.antt =====
-- The pipes between processes of kernel/base/ipc/pipes.c, as a driver of the virtual file system, and
-- the shared objects of kernel/base/datastructs/shared.c that both ends of a pipe point to.
pub mod Ends
pub mod Transfer
pub mod Made
pub mod Carry
pub mod Counts
mod Tests
use helix_os.Common.{
  ℕ, zero, suc, ◌+◌, ◌^◌, Bool, true, false, not, ◌&&◌, ◌||◌, Option, none, some, List, [], ◌∷◌,
  leb, ◌==◌, if◌then◌else◌, ◌+w◌, ◌-w◌, ◌>>=◌,
}
use helix_os.Dlist.{dlist_add}
use helix_os.Pipe.{Pipe, Pipeline, pipe_create, pipe_write, pipeline_read}
use helix_os.Vfs.{
  FileNode, FileObj, Funcs, State, update, file_pobj, zero_node, zero_obj, neg, error_try_again,
  pobj_copy,
}
use helix_os.Vfs.Open.{is_empty}

-- `shared_t`; `object` is its `data`.
pub record Shared : Type 0 where
  pub object : ℕ
  pub references : ℕ
  pub dtor : ℕ

-- The blocks that the pipes use, by address, and which of them `kfree` has taken back: the memory of
-- such a block is still what it was.
pub record World : Type 0 where
  pub shareds : ℕ → Shared
  pub pipes : ℕ → Pipe
  pub freed : ℕ → Bool

abbrev pub put : {A : Type 0} → (ℕ → A) → ℕ → A → ℕ → A
put fill ptr value p = if p == ptr then value else fill p

abbrev pub kfree : ℕ → World → World
kfree ptr world = record world { freed = put world.freed ptr true }

-- `fresh` is the block that `knew` returns.
pub shared_new : ℕ → ℕ → ℕ → World → World
shared_new fresh object dtor world = record world {
  shareds = put world.shareds fresh (record { object = object; references = 1; dtor = dtor });
}

pub shared_get : World → ℕ → ℕ
shared_get world ptr = if ptr == 0 then 0 else (world.shareds ptr).object

pub shared_aquire : World → ℕ → World
shared_aquire world ptr =
    if ptr == 0
    then world
    else (let shared = world.shareds ptr in
        record world {
          shareds = put world.shareds ptr (record shared { references = shared.references +w 1 });
        })

-- The last release runs the destructor, which for every shared object is `kfree`, and frees the
-- object. With no reference left there is only a message.
pub shared_release : World → ℕ → World
shared_release world ptr =
    let shared = world.shareds ptr in
    if not (ptr == 0) && not (shared.references == 0)
    then (let left = record shared { references = shared.references -w 1 } in
        let world' = record world { shareds = put world.shareds ptr left } in
        if left.references == 0
        then kfree ptr (if left.dtor == 0 then world' else kfree left.object world')
        else world')
    else world

abbrev pub pipe_pobj : ℕ
pipe_pobj = 0xcafebeef

abbrev pub pipeline_pobj : ℕ
pipeline_pobj = 0xbeefcafe

-- The addresses of `pipe_vfs_fs`, `pipe_obj_ctor`, `pipe_obj_dtor` and `kfree`.
pub record Linked : Type 0 where
  pub pipe_vfs_fs : ℕ
  pub pipe_obj_ctor : ℕ
  pub pipe_obj_dtor : ℕ
  pub default_dtor : ℕ

-- The blocks that `make_pipes` is given: for the two objects, the shared object and the pipe, whose
-- memory is not cleared, with the buffers of its lines.
pub record Blocks : Type 0 where
  pub write_obj : ℕ
  pub read_obj : ℕ
  pub shared : ℕ
  pub pipe : ℕ
  pub unset : Pipe
  pub buffers : ℕ → List ℕ

-- The end of a pipe of some type is counted up or down.
pub count_end : (ℕ → ℕ) → ℕ → Pipe → Pipe
count_end change file_type pipe =
    if file_type == pipe_pobj
    then record pipe { writers = change pipe.writers }
    else (if file_type == pipeline_pobj
        then record pipe { readers = change pipe.readers }
        else pipe)

abbrev pub change_pipe : (Pipe → Pipe) → ℕ → World → World
change_pipe change ptr world = record world {
  pipes = put world.pipes ptr (change (world.pipes ptr));
}

pub pipe_end : Linked → ℕ → FileObj
pipe_end at shared = record zero_obj {
  base_type = file_pobj;
  base_ctor = at.pipe_obj_ctor;
  base_dtor = at.pipe_obj_dtor;
  node = record zero_node { fs = at.pipe_vfs_fs; private_data = shared };
  file_type = pipe_pobj;
}

pub make_pipe_pobj : Linked → Blocks → State World → Option (State World)
make_pipe_pobj at blocks st = do
  pipe ← pipe_create blocks.unset blocks.buffers 1 256 0
  let world = record st.world { pipes = put st.world.pipes blocks.pipe (record pipe { sem = 1 }) }
  some (record st {
    objects = update st.objects blocks.write_obj (some (pipe_end at blocks.shared));
    world = shared_new blocks.shared blocks.pipe at.default_dtor world;
  })

-- What the constructor makes of the new object.
pub copy_end : FileObj → FileObj → FileObj
copy_end old new = record new {
  base_type = old.base_type;
  base_ctor = old.base_ctor;
  base_dtor = old.base_dtor;
  node = old.node;
  file_type = old.file_type;
}

pub pipe_obj_ctor : ℕ → ℕ → State World → Option (State World)
pipe_obj_ctor old new st = if (old == 0) || (new == 0) then some st else do
  from ← st.objects old
  to ← st.objects new
  let copy = copy_end from to
  let world = shared_aquire st.world copy.node.private_data
  let pipe = shared_get world copy.node.private_data
  some (record st {
    objects = update st.objects new (some copy);
    world = change_pipe (count_end (λ n. n +w 1) copy.file_type) pipe world;
  })

-- The destructor, of the object that the pointer leads to.
pub drop_end : ℕ → State World → FileObj → State World
drop_end ptr st obj =
    let pipe = shared_get st.world obj.node.private_data in
    let world = change_pipe (count_end (λ n. n -w 1) obj.file_type) pipe st.world in
    record st {
      objects = update st.objects ptr none;
      world = shared_release world obj.node.private_data;
    }

-- A pointer to no object is not looked at; NULL is such a pointer.
pub pipe_obj_dtor : ℕ → State World → State World
pipe_obj_dtor ptr st = elim (st.objects ptr) [ none ↦ st | some obj ↦ drop_end ptr st obj ]

-- `pipeline_read( temp->bufs[0], … )`; a pipe that `pipe_create` made has a line there.
pub read_first : List Pipeline → ℕ → ℕ × List ℕ × List Pipeline
read_first [] length = (0, [], [])
read_first (line ∷ lines) length =
    let (ret, bytes, line') = pipeline_read line length in (ret, bytes, line' ∷ lines)

-- The semaphore makes the part between its two calls one step of the system.
pub pipe_vfs_read : FileNode → ℕ → ℕ → World → ℕ × List ℕ × World
pipe_vfs_read node length offset world =
    let ptr = shared_get world node.private_data in
    let pipe = world.pipes ptr in
    let (ret, bytes, lines) = read_first pipe.bufs length in
    (
      if not (length == 0) && ret == 0 && leb 1 pipe.writers then neg error_try_again else ret,
      bytes,
      record world { pipes = put world.pipes ptr (record pipe { bufs = lines }) },
    )

pub pipe_vfs_write : FileNode → List ℕ → ℕ → World → ℕ × World
pipe_vfs_write node buf offset world =
    let ptr = shared_get world node.private_data in
    let (ret, pipe) = pipe_write (world.pipes ptr) buf in
    (
      if not (is_empty buf) && ret == 0 && leb 2 pipe.readers then neg error_try_again else ret,
      record world { pipes = put world.pipes ptr pipe },
    )

pub pipe_vfs_funcs : Funcs World
pipe_vfs_funcs = record {
  read = some pipe_vfs_read;
  write = some pipe_vfs_write;
  readdir = none;
  lookup = none;
  open_node = none;
  close = some (λ node world. (0, world));
  get_info = none;
}

-- The rest of `make_pipes`, once both ends are there: `pobj_copy` has returned `read_obj`.
pub connect : (ℕ → ℕ) → ℕ → ℕ → FileObj → State World → ℕ → ℕ × ℕ × State World
connect fill write_obj shared readend st read_obj =
    let pipe = shared_get st.world shared in
    let world = change_pipe (λ p. record p { readers = 1; writers = 1 }) pipe st.world in
    let (fd0, with_read) = dlist_add fill st.pobjects read_obj in
    let (fd1, with_both) = dlist_add fill with_read write_obj in
    (
      fd0,
      fd1,
      record st {
        objects = update st.objects read_obj (some (record readend { file_type = pipeline_pobj }));
        pobjects = with_both;
        world = world;
      },
    )

-- The two descriptors are what the source puts into `fds`; it returns 0.
pub make_pipes :
    (ℕ → ℕ → ℕ → State World → Option (State World))
    → Linked
    → (ℕ → ℕ)
    → Blocks
    → State World
    → Option (ℕ × ℕ × State World)
make_pipes ctors at fill blocks st = do
  st' ← make_pipe_pobj at blocks st
  (read_obj, copied) ← pobj_copy ctors blocks.read_obj st' blocks.write_obj
  readend ← copied.objects read_obj
  some (connect fill blocks.write_obj blocks.shared readend copied read_obj)
