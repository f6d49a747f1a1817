-- ===== src/Vfs.antt =====
-- The calls on file descriptors of kernel/base/vfs/vfs_syscalls.c, for the current task. An `int` is
-- its 32-bit pattern, and a pointer is a number, NULL 0. A read of an object that is gone is `none`.
pub mod Lookup
pub mod Open
pub mod Objects
pub mod Once
pub mod Cursor
pub mod Seek
pub mod Close
pub mod Errors
mod Tests
use helix_os.Common.{
  ℕ, zero, suc, ◌+◌, ◌-◌, ◌*◌, ◌/◌, ◌%◌, ◌^◌, Bool, true, false, not, ◌&&◌, Option, none, some,
  List, [], ltb, leb, ◌==◌, if◌then◌else◌, ◌+w◌, u32, ◌>>=◌,
}
use helix_os.Dlist.{Dlist, dlist_allocated, dlist_get, dlist_remove}

-- `-e` for an error number `e`.
abbrev pub neg : ℕ → ℕ
neg e = 2 ^ 32 - e

abbrev pub error_no_func : ℕ
error_no_func = 1

abbrev pub error_invalid_argument : ℕ
error_invalid_argument = 2

abbrev pub error_not_file : ℕ
error_not_file = 5

abbrev pub error_not_found : ℕ
error_not_found = 6

abbrev pub error_invalid_offset : ℕ
error_invalid_offset = 8

abbrev pub error_try_again : ℕ
error_try_again = 9

-- `ret >= 0`
abbrev pub succeeds : ℕ → Bool
succeeds ret = ltb ret (2 ^ 31)

-- The type of a process object that is a file.
abbrev pub file_pobj : ℕ
file_pobj = 0xf11e

abbrev pub file_nonblock : ℕ
file_nonblock = 16

-- `flags & FILE_NONBLOCK`
abbrev pub nonblock_bit : ℕ → ℕ
nonblock_bit flags = flags / 16 % 2 * 16

-- The fields of `file_node_t` that the calls use; `fs` names the file system's functions.
pub record FileNode : Type 0 where
  pub inode : ℕ
  pub flags : ℕ
  pub fs : ℕ
  pub mount : ℕ
  pub private_data : ℕ

-- `file_pobj_t`, with the fields of its base.
pub record FileObj : Type 0 where
  pub base_type : ℕ
  pub base_ctor : ℕ
  pub base_dtor : ℕ
  pub node : FileNode
  pub read_offset : ℕ
  pub write_offset : ℕ
  pub file_type : ℕ

abbrev pub zero_node : FileNode
zero_node = record { inode = 0; flags = 0; fs = 0; mount = 0; private_data = 0 }

-- What `knew` returns.
abbrev pub zero_obj : FileObj
zero_obj = record {
  base_type = 0;
  base_ctor = 0;
  base_dtor = 0;
  node = zero_node;
  read_offset = 0;
  write_offset = 0;
  file_type = 0;
}

-- `file_funcs_t`: `none` is a function that the driver does not have. `W` is the state of the
-- drivers. Beside its result, a read returns the bytes that it put into the buffer, `get_info` the
-- size and `lookup` the node that it wrote.
pub record Funcs (W : Type 0) : Type 0 where
  pub read : Option (FileNode → ℕ → ℕ → W → ℕ × List ℕ × W)
  pub write : Option (FileNode → List ℕ → ℕ → W → ℕ × W)
  pub readdir : Option (FileNode → ℕ → W → ℕ × W)
  pub lookup : Option (FileNode → List ℕ → ℕ → W → ℕ × FileNode × W)
  pub open_node : Option (FileNode → List ℕ → ℕ → W → ℕ × W)
  pub close : Option (FileNode → W → ℕ × W)
  pub get_info : Option (FileNode → W → ℕ × ℕ × W)

-- The current task's object table and directories with the memory that they point to, and the
-- pointer `global_vfs_root`.
pub record State (W : Type 0) : Type 0 where
  pub objects : ℕ → Option FileObj
  pub nodes : ℕ → Option FileNode
  pub pobjects : Dlist
  pub vfs_root : ℕ
  pub froot : ℕ
  pub curdir : ℕ
  pub world : W

abbrev pub update : {A : Type 0} → (ℕ → Option A) → ℕ → Option A → ℕ → Option A
update fill ptr value p = if p == ptr then value else fill p

-- What `vfs_get_pobj` finds: an object, where it returns 0, or an error.
pub data Got : Type 0 where
  found : ℕ → FileObj → Got
  refused : ℕ → Got
  dangling : Got

file_of : ℕ → Option FileObj → Got
file_of ptr none = dangling
file_of ptr (some obj) =
    if obj.base_type == file_pobj then found ptr obj else refused (neg error_not_file)

pub vfs_get_pobj : {W : Type 0} → State W → ℕ → Got
unfolding file_of
vfs_get_pobj st pnode =
    if ltb pnode (dlist_allocated st.pobjects)
    then (if dlist_get st.pobjects pnode == 0
        then refused (neg error_not_found)
        else file_of (dlist_get st.pobjects pnode) (st.objects (dlist_get st.pobjects pnode)))
    else refused (neg error_invalid_argument)

-- `pobj_get` of kernel/base/tasking/pobj.c: the same, whatever the type of the object.
pub pobj_get : {W : Type 0} → State W → ℕ → ℕ × ℕ
pobj_get st pnode =
    if ltb pnode (dlist_allocated st.pobjects)
    then (if dlist_get st.pobjects pnode == 0
        then (neg error_not_found, 0)
        else (0, dlist_get st.pobjects pnode))
    else (neg error_invalid_argument, 0)

-- `if (( ret = vfs_get_pobj( … )) >= 0 ) …`, where a call that is refused returns the error.
abbrev pub with_obj : {A : Type 0} → Got → (ℕ → A) → (ℕ → FileObj → Option A) → Option A
with_obj (found ptr obj) refuse go = go ptr obj
with_obj (refused e) refuse go = some (refuse e)
with_obj dangling refuse go = none

-- `(ret > 0)? ret : 0`
abbrev pub gained : ℕ → ℕ
gained ret = if succeeds ret then ret else 0

abbrev pub must_wait : FileNode → ℕ → Bool
must_wait node ret = nonblock_bit node.flags == 0 && ret == neg error_try_again

abbrev pub put_obj : {W : Type 0} → State W → ℕ → FileObj → W → State W
put_obj st ptr obj world = record st { objects = update st.objects ptr (some obj); world = world }

module _ {W : Type 0} (drivers : ℕ → Funcs W) where
  -- `VFS_FUNCTION`: a function that is missing is an error.
  unfoldable pub call_read : FileNode → ℕ → ℕ → W → ℕ × List ℕ × W
  call_read node length offset world = elim (drivers node.fs).read [
    | none ↦ (neg error_no_func, [], world)
    | some f ↦ f node length offset world
  ]

  unfoldable pub call_write : FileNode → List ℕ → ℕ → W → ℕ × W
  call_write node bytes offset world = elim (drivers node.fs).write [
    | none ↦ (neg error_no_func, world)
    | some f ↦ f node bytes offset world
  ]

  pub call_get_info : FileNode → W → ℕ × ℕ × W
  call_get_info node world = elim (drivers node.fs).get_info [
    | none ↦ (neg error_no_func, 0, world)
    | some f ↦ f node world
  ]

  pub call_lookup : FileNode → List ℕ → ℕ → W → ℕ × FileNode × W
  call_lookup node name flags world = elim (drivers node.fs).lookup [
    | none ↦ (neg error_no_func, node, world)
    | some f ↦ f node name flags world
  ]

  pub call_open : FileNode → List ℕ → ℕ → W → ℕ × W
  call_open node name flags world = elim (drivers node.fs).open_node [
    | none ↦ (neg error_no_func, world)
    | some f ↦ f node name flags world
  ]

  unfoldable pub call_close : FileNode → W → ℕ × W
  call_close node world = elim (drivers node.fs).close [
    | none ↦ (neg error_no_func, world)
    | some f ↦ f node world
  ]

  pub call_readdir : FileNode → ℕ → W → ℕ × W
  call_readdir node entry world = elim (drivers node.fs).readdir [
    | none ↦ (neg error_no_func, world)
    | some f ↦ f node entry world
  ]

  -- The loops of `vfs_read` and `vfs_write`. `schedule` is what the other tasks make of the drivers'
  -- state while `rrschedule_call` lets them run; `none` means that the fuel ran out. The bytes are
  -- those of the last read, which overwrites the buffer.
  pub read_loop : (W → W) → ℕ → ℕ → FileObj → State W → ℕ → Option (ℕ × List ℕ × State W)
  read_loop schedule zero ptr obj st length = none
  read_loop schedule (suc fuel) ptr obj st length =
      let (ret, bytes, world) = call_read obj.node length obj.read_offset st.world in
      let obj' = record obj { read_offset = obj.read_offset +w gained ret } in
      let again = read_loop schedule fuel ptr obj' (put_obj st ptr obj' (schedule world)) length in
      if must_wait obj.node ret then again else some (ret, bytes, put_obj st ptr obj' world)

  pub write_loop : (W → W) → ℕ → ℕ → FileObj → State W → List ℕ → Option (ℕ × State W)
  write_loop schedule zero ptr obj st bytes = none
  write_loop schedule (suc fuel) ptr obj st bytes =
      let (ret, world) = call_write obj.node bytes obj.write_offset st.world in
      let obj' = record obj { write_offset = obj.write_offset +w gained ret } in
      let again = write_loop schedule fuel ptr obj' (put_obj st ptr obj' (schedule world)) bytes in
      if must_wait obj.node ret then again else some (ret, put_obj st ptr obj' world)

  -- A call for no byte returns `-ERROR_NOT_FILE`.
  pub vfs_read : (W → W) → ℕ → State W → ℕ → ℕ → Option (ℕ × List ℕ × State W)
  vfs_read schedule fuel st pnode length =
      if length == 0
      then some (neg error_not_file, [], st)
      else with_obj (vfs_get_pobj st pnode) (λ e. (e, [], st))
          (λ ptr obj. read_loop schedule fuel ptr obj st length)

  -- `bytes` are the `length` bytes of the buffer.
  pub vfs_write : (W → W) → ℕ → State W → ℕ → List ℕ → ℕ → Option (ℕ × State W)
  vfs_write schedule fuel st pnode bytes length =
      if length == 0
      then some (neg error_not_file, st)
      else with_obj (vfs_get_pobj st pnode) (λ e. (e, st))
          (λ ptr obj. write_loop schedule fuel ptr obj st bytes)

  pub vfs_readdir : State W → ℕ → ℕ → Option (ℕ × State W)
  vfs_readdir st pnode entry =
      with_obj (vfs_get_pobj st pnode) (λ e. (e, st))
        (λ ptr obj.
          let (ret, world) = call_readdir obj.node entry st.world in
          some (ret, record st { world = world }))

-- `pobj_free`: a destructor, if the object has one, frees the object itself. `dtors` are the
-- functions that `base.dtor` may point to.
unfoldable pub pobj_free :
    {W : Type 0} → (ℕ → ℕ → State W → State W) → State W → ℕ → FileObj → State W
pobj_free dtors st ptr obj =
    if obj.base_dtor == 0
    then record st { objects = update st.objects ptr none }
    else dtors obj.base_dtor ptr st

-- `pobj_copy`, of an object, into the cleared block `fresh`; `ctors` are the functions that
-- `base.ctor` may point to. The size that the object states is that of its type.
unfoldable pub pobj_copy :
    {W : Type 0} → (ℕ → ℕ → ℕ → State W → Option (State W)) → ℕ → State W → ℕ → Option (ℕ × State W)
pobj_copy ctors fresh st ptr =
    if ptr == 0
    then some (0, st)
    else (st.objects ptr >>= λ obj.
        if obj.base_ctor == 0
        then some (fresh, record st { objects = update st.objects fresh (some obj) })
        else (ctors obj.base_ctor ptr fresh
              (record st { objects = update st.objects fresh (some zero_obj) })
            >>= λ st'. some (fresh, st')))

-- What `vfs_spawn` makes of the result of its read.
pub load_file :
    {W : Type 0} → (List ℕ → W → ℕ × W) → ℕ → ℕ × List ℕ × State W → Option (ℕ × State W)
load_file elfload size (n, bytes, st) =
    if n == size
    then (let (ret, world) = elfload bytes st.world in some (ret, record st { world = world }))
    else some (n, st)

module _ {W : Type 0} (drivers : ℕ → Funcs W) where
  pub vfs_close : (ℕ → ℕ → State W → State W) → State W → ℕ → Option (ℕ × State W)
  vfs_close dtors st pnode =
      with_obj (vfs_get_pobj st pnode) (λ e. (e, st))
        (λ ptr obj.
          let (ret, world) = call_close drivers obj.node st.world in
          let removed = (dlist_remove st.pobjects pnode).1 in
          some (ret, pobj_free dtors (record st { world = world; pobjects = removed }) ptr obj))

  -- `vfs_spawn` reads the whole file and hands it to the loader; `elfload` is `elfload_from_mem`.
  pub vfs_spawn : (List ℕ → W → ℕ × W) → (W → W) → ℕ → State W → ℕ → Option (ℕ × State W)
  vfs_spawn elfload schedule fuel st pnode =
      with_obj (vfs_get_pobj st pnode) (λ e. (e, st))
        (λ ptr obj.
          let (ret, size, world) = call_get_info drivers obj.node st.world in
          if succeeds ret
          then (vfs_read drivers schedule fuel (record st { world = world }) pnode size
              >>= load_file elfload size)
          else some (ret, record st { world = world }))
