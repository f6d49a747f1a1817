-- ===== src/Tasks/Tests.antt =====
-- The creation of a thread by a process with an open file.
use helix_os.Common.{
  ℕ, zero, suc, ◌+◌, ◌≡◌, refl, true, false, none, some, [], ◌∷◌, arith, get_elem?, inl, inr,
}
use helix_os.Dlist.{Dlist, dlist_get}
use helix_os.Dlist.Resize.{fill}
use helix_os.Vfs.{zero_obj, zero_node, update}
use helix_os.Tasks.{
  Process, Tasking, TaskBlocks, get_task_node_by_pid, create_thread, sbrk, get_current_task,
}
use helix_os.Tasks.Create.{Plain}
use helix_os.Tasks.Pids.{Distinct}
use helix_os.Tasks.Threads.{create_thread-Distinct}

abbrev table : Dlist
table = record { entries = 100 ∷ 0 ∷ []; used = 1; alloced = 2; block_size = 2; blocks_alloced = 1 }

abbrev process : ℕ → Process
process pid = record {
  state = 0;
  eip = 0;
  esp = 0;
  ebp = 0;
  pid = pid;
  group = 0;
  parent = 0;
  stack = 0;
  pagedir = 0x4000;
  memmaps = 0;
  mainmap = 70;
  waiting = 0;
  end_status = 0;
  pobjects = table;
  froot = 200;
  curdir = 0;
}

-- Two tasks; the second one runs.
abbrev kernel : Tasking ℕ
kernel = record {
  task_list = process 0 ∷ process 4 ∷ [];
  current_task = 1;
  pidcount = 4;
  tasking_initialized = true;
  task_blocked = false;
  current_dir = 0x4000;
  store = record {
    objects = update (λ a. none) 100 (some zero_obj);
    nodes = update (λ a. none) 200 (some zero_node);
    pobjects = table;
    vfs_root = 200;
    froot = 200;
    curdir = 0;
    world = 0;
  };
  maps =
      update (λ a. none) 70
        (some (record { type = 3; perms = 3; start = 0; stop = 0x5000; references = 1 }));
}

abbrev blocks : TaskBlocks
blocks = record { froot = 300; curdir = 310; object = λ i. 400 + i }

-- Counts the pages that were mapped.
abbrev count_page : ℕ → ℕ → ℕ → ℕ → ℕ
count_page dir vaddress permissions world = world + 1

old_end : (t : Tasking ℕ) × (sbrk kernel 0x1000 ≡ some (0x5000, t))
unfolding sbrk get_current_task
old_end = (_, refl)

kernel-Plain : (k : ℕ) → Plain kernel.store (dlist_get table k)
unfolding dlist_get
kernel-Plain zero = inr (zero_obj, refl, refl)
kernel-Plain (suc zero) = inl refl
kernel-Plain (suc (suc k)) = inl (ground arith)

create_thread-Distinct_example :
    (pid : ℕ) × (t' : Tasking ℕ) × (create_thread fill
        (λ ctor old new st. none)
        count_page
        blocks
        0x8000
        kernel
      ≡ some (pid, t'))
    × (pid ≡ 5)
    × Distinct t'.pidcount t'.task_list
    × (get_task_node_by_pid t' pid ≡ some 2)
    × ((k : ℕ) (task : Process)
        → get_elem? kernel.task_list k ≡ some task
        → get_task_node_by_pid t' task.pid ≡ some k)
    × (t'.task_blocked ≡ false)
create_thread-Distinct_example =
    create_thread-Distinct fill (λ ctor old new st. none) count_page blocks 0x8000 kernel
      (process 4) refl refl (omega arith, (omega arith, tt), (omega arith, tt, tt)) (omega arith)
      kernel-Plain (inr (zero_node, refl)) (inl refl)
