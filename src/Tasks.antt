-- ===== src/Tasks.antt =====
-- The creation of threads in kernel/base/tasking/task.c, and the search for a task by its pid. The list
-- of tasks is in the order of its nodes. The page tables are memory of the machine, a parameter.
pub mod Create
pub mod Pids
pub mod Threads
mod Tests
use helix_os.Common.{
  ℕ, zero, suc, ◌+◌, Bool, true, false, Option, none, some, List, [], ◌∷◌, ◌++◌, get_elem?, set,
  ltb, ◌==◌, if◌then◌else◌, ◌+w◌, ◌*w◌, ◌>>=◌,
}
use helix_os.Dlist.{Dlist, dlist_create, dlist_add, dlist_get}
use helix_os.Vfs.{State, FileNode, pobj_copy, update}
use helix_os.Paging.Fault.{Memmap}

-- `task_t`, but for `sem` and `sleep`, which creation leaves at 0.
pub record Process : Type 0 where
  pub state : ℕ
  pub eip : ℕ
  pub esp : ℕ
  pub ebp : ℕ
  pub pid : ℕ
  pub group : ℕ
  pub parent : ℕ
  pub stack : ℕ
  pub pagedir : ℕ
  pub memmaps : ℕ
  pub mainmap : ℕ
  pub waiting : ℕ
  pub end_status : ℕ
  pub pobjects : Dlist
  pub froot : ℕ
  pub curdir : ℕ

abbrev pub task_state_running : ℕ
task_state_running = 0

-- The variables of the file. `store` has the objects and the file nodes, and with them the table and
-- the directories of the current task; `maps` are the memory maps by address.
pub record Tasking (W : Type 0) : Type 0 where
  pub task_list : List Process
  pub current_task : ℕ
  pub pidcount : ℕ
  pub tasking_initialized : Bool
  pub task_blocked : Bool
  pub current_dir : ℕ
  pub store : State W
  pub maps : ℕ → Option Memmap

-- The addresses of the blocks that the creation of a task allocates.
pub record TaskBlocks : Type 0 where
  pub froot : ℕ
  pub curdir : ℕ
  pub object : ℕ → ℕ

-- The index of the first task with the pid among those from `i` on.
pub find_pid : List Process → ℕ → ℕ → Option ℕ
find_pid [] pid i = none
find_pid (task ∷ tasks) pid i =
    let rest = find_pid tasks pid (i + 1) in if task.pid == pid then some i else rest

module _ {W : Type 0} where
  pub get_current_task : Tasking W → Option Process
  get_current_task t = get_elem? t.task_list t.current_task

  pub get_task_node_by_pid : Tasking W → ℕ → Option ℕ
  get_task_node_by_pid t pid = find_pid t.task_list pid 0

  pub block_tasks : Tasking W → Tasking W
  block_tasks t = record t { task_blocked = true }

  pub unblock_tasks : Tasking W → Tasking W
  unblock_tasks t = record t { task_blocked = false }

  pub add_task : Tasking W → Process → Tasking W
  add_task t new_task =
      if t.tasking_initialized then record t { task_list = t.task_list ++ (new_task ∷ []) } else t

  -- A copy of the node at `address` in the block `fresh`, NULL if there is none to copy.
  pub copy_node : State W → ℕ → ℕ → Option (ℕ × State W)
  copy_node st address fresh =
      let copied = st.nodes address >>= λ node.
      some (fresh, record st { nodes = update st.nodes fresh (some node) }) in
      if address == 0 then some (0, st) else copied

  -- `sbrk` of the current task; the result is the old end of its main map.
  pub sbrk : Tasking W → ℕ → Option (ℕ × Tasking W)
  sbrk t increment = do
    cur ← get_current_task t
    map ← t.maps cur.mainmap
    some (
      map.stop,
      record t {
        maps = update t.maps cur.mainmap (some (record map { stop = map.stop +w increment }));
      },
    )

  module _ (fill : ℕ → ℕ) (ctors : ℕ → ℕ → ℕ → State W → Option (State W))
      (map_page : ℕ → ℕ → ℕ → W → W) where
    -- The loop over three descriptors; the first argument is how many are left. `fds` is the array, or
    -- the index itself where it is NULL.
    pub copy_fds : ℕ → TaskBlocks → (ℕ → ℕ) → ℕ → State W → Dlist → Option (State W × Dlist)
    copy_fds zero blocks fds i st table = some (st, table)
    copy_fds (suc left) blocks fds i st table =
        let nfobj = dlist_get st.pobjects (fds i) in
        let rest = pobj_copy ctors (blocks.object i) st nfobj >>= λ r.
        copy_fds left blocks fds (i + 1) r.1 (dlist_add fill table r.0).1 in
        if nfobj == 0 then some (st, table) else rest

    -- The new task was cleared. The stack's page is mapped in the current directory.
    pub init_task : TaskBlocks → (ℕ → ℕ) → Tasking W → Option (Process × Tasking W)
    init_task blocks fds t = do
      cur ← get_current_task t
      let pid = t.pidcount +w 1
      let stack = 0xa1000000 +w pid *w 0x1000
      let mapped = record t.store { world = map_page t.current_dir stack 7 t.store.world }
      (froot, st1) ← copy_node mapped mapped.froot blocks.froot
      (curdir, st2) ← copy_node st1 st1.curdir blocks.curdir
      (st3, table) ← copy_fds 3 blocks fds 0 st2 (dlist_create 0 0)
      some (
        record {
          state = task_state_running;
          eip = 0;
          esp = stack +w 0x1000;
          ebp = 0;
          pid = pid;
          group = cur.group;
          parent = cur.pid;
          stack = stack;
          pagedir = t.current_dir;
          memmaps = 0;
          mainmap = 0;
          waiting = 0;
          end_status = 0;
          pobjects = table;
          froot = froot;
          curdir = curdir;
        },
        record t { pidcount = pid; store = st3 },
      )

    pub create_thread : TaskBlocks → ℕ → Tasking W → Option (ℕ × Tasking W)
    create_thread blocks start t = do
      cur ← get_current_task t
      (new_task, t') ← init_task blocks (λ i. i) (block_tasks t)
      let filled = record new_task { memmaps = cur.memmaps; mainmap = cur.mainmap; eip = start }
      some (new_task.pid, unblock_tasks (add_task t' filled))
