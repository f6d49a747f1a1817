-- ===== src/Tasks/Threads.antt =====
-- `create_thread` and the pids of the tasks.
use mathlib.Core.Path.{subst}
use helix_os.Common.{
  ℕ, ◌+◌, ◌^◌, ◌<◌, ◌≡◌, refl, sym, ap, ◌∙◌, true, false, Option, some, [], ◌∷◌, ◌++◌, arith,
  length, get_elem?, ◌+w◌, ◌*w◌,
}
use helix_os.Dlist.{Dlist, dlist_create, dlist_get}
use helix_os.Vfs.{State}
use helix_os.Tasks.{
  Process, Tasking, TaskBlocks, get_current_task, get_task_node_by_pid, init_task, create_thread,
  add_task, block_tasks, unblock_tasks,
}
use helix_os.Tasks.Create.{Plain, Node, copy_node_returns, copy_fds_returns}
use helix_os.Tasks.Pids.{Distinct, Distinct-snoc, find_pid_new, find_pid_old}

module _ {W : Type 0} (fill : ℕ → ℕ) (ctors : ℕ → ℕ → ℕ → State W → Option (State W))
    (map_page : ℕ → ℕ → ℕ → W → W) where
  -- `create_thread`, where tasking is initialized, there is a current task, the pids of the tasks are
  -- distinct and at most the counter (below 2 ^ 32 - 1), every open object of the current task is there
  -- and has no constructor, and its root and its current directory are NULL or nodes that are there (not
  -- one that `vfs_chdir` freed), returns the counter plus 1. Afterwards the pids are again distinct and at
  -- most the counter, the pid finds the new task at the end of the list, the pid of every old task finds
  -- that task, and tasks are not blocked.
  pub create_thread-Distinct :
      (blocks : TaskBlocks) (start : ℕ) (t : Tasking W) (cur : Process)
      → get_elem? t.task_list t.current_task ≡ some cur
      → t.tasking_initialized ≡ true
      → Distinct t.pidcount t.task_list
      → t.pidcount + 1 < 2 ^ 32
      → ((k : ℕ) → Plain t.store (dlist_get t.store.pobjects k))
      → Node t.store t.store.froot
      → Node t.store t.store.curdir
      → (pid : ℕ) × (t' : Tasking W) × (create_thread fill ctors map_page blocks start t
          ≡ some (pid, t'))
        × (pid ≡ t.pidcount + 1)
        × Distinct t'.pidcount t'.task_list
        × (get_task_node_by_pid t' pid ≡ some (length t.task_list))
        × ((k : ℕ) (task : Process)
            → get_elem? t.task_list k ≡ some task
            → get_task_node_by_pid t' task.pid ≡ some k)
        × (t'.task_blocked ≡ false)
  unfolding create_thread init_task get_current_task add_task block_tasks unblock_tasks
      get_task_node_by_pid
  create_thread-Distinct blocks start t cur current initialized d word plain root dir =
      let pid = t.pidcount +w 1 in
      let next : t.pidcount +w 1 ≡ t.pidcount + 1 = omega arith in
      let stack = 0xa1000000 +w pid *w 0x1000 in
      let mapped : State W = record t.store {
        world = map_page t.current_dir stack 7 t.store.world;
      } in
      let (froot, st1, e1, plain1, node1, table1, dir1) =
        copy_node_returns mapped mapped.froot blocks.froot root in
      let (curdir, st2, e2, plain2, node2, table2, dir2) =
        copy_node_returns st1 st1.curdir blocks.curdir
          (subst (Node st1) (sym dir1) (node1 mapped.curdir dir)) in
      let same_table : st2.pobjects ≡ t.store.pobjects = table2 ∙ table1 in
      let (st3, table, e3) =
        copy_fds_returns fill ctors map_page 3 blocks (λ i. i) 0 st2 (dlist_create 0 0)
          (λ k.
            subst (λ (list : Dlist). Plain st2 (dlist_get list k)) (sym same_table)
              (plain2 _ (plain1 _ (plain k)))) in
      let new : Process = record {
        state = 0;
        eip = start;
        esp = stack +w 0x1000;
        ebp = 0;
        pid = pid;
        group = cur.group;
        parent = cur.pid;
        stack = stack;
        pagedir = t.current_dir;
        memmaps = cur.memmaps;
        mainmap = cur.mainmap;
        waiting = 0;
        end_status = 0;
        pobjects = table;
        froot = froot;
        curdir = curdir;
      } in
      let t' : Tasking W = record t {
        task_list = t.task_list ++ new ∷ [];
        pidcount = pid;
        store = st3;
        task_blocked = false;
      } in
      (
        pid,
        t',
        rw (current, e1, e2, e3, initialized) refl,
        next,
        subst (λ n. Distinct n (t.task_list ++ new ∷ [])) (sym next)
            (Distinct-snoc t.pidcount t.task_list new d next),
        find_pid_new t.pidcount t.task_list new 0 d (omega arith) ∙ ap some (omega arith),
        λ k task at. find_pid_old t.pidcount t.task_list new 0 k task d at ∙ ap some (omega arith),
        refl,
      )
