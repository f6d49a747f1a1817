-- ===== src/Sched.antt =====
-- The round robin scheduler of kernel/base/tasking/rrsched.c, over the task list of task.c.
-- The list of tasks is in the order of the list's nodes, and a node is its index. The registers
-- that the inline assembly reads and loads are a record; `resume` is the address that
-- `get_instruct_ptr` returns.
pub mod Pick
pub mod Switch
pub mod Fair
mod Tests
use helix_os.Common.{
  ℕ, zero, suc, ◌+◌, ◌*◌, ◌/◌, Bool, true, false, not, ◌&&◌, ◌||◌, Option, none, some, List, [],
  ◌∷◌, ltb, ◌==◌, if◌then◌else◌, ◌+w◌, ◌*w◌, get_elem?, set, length, ◌>>=◌,
}

pub data TaskState : Type 0 where
  running sleeping waiting stopped ended : TaskState

-- The fields of `task_t` that scheduling reads and writes; `sem` is the address of a semaphore.
pub record Task : Type 0 where
  pub state : TaskState
  pub eip : ℕ
  pub esp : ℕ
  pub ebp : ℕ
  pub pid : ℕ
  pub sleep : ℕ
  pub pagedir : ℕ
  pub sem : ℕ
  pub waiting : ℕ

pub record Cpu : Type 0 where
  pub eip : ℕ
  pub esp : ℕ
  pub ebp : ℕ
  pub pagedir : ℕ

-- The kernel's state: the list, `current_task`, the timer's tick and the semaphores by address.
pub record Kernel : Type 0 where
  pub tasks : List Task
  pub current : ℕ
  pub tick : ℕ
  pub sems : ℕ → ℕ

-- The condition of the `do … while` loop of `rrschedule_call`.
pub must_skip : (ℕ → ℕ) → ℕ → Task → Bool
must_skip sems tick task = elim task.state [
  | running ↦ false
  | sleeping ↦ ltb tick task.sleep
  | waiting ↦ sems task.sem == 0
  | stopped ↦ false
  | ended ↦ not (task.waiting == 0)
]

-- `next_node->next? next_node->next : get_task_list( )`
pub next_index : ℕ → ℕ → ℕ
next_index len i = if ltb (suc i) len then suc i else 0

-- The loop, over the indices of a list of `len` tasks; `none` means that the fuel ran out.
pub pick : ℕ → ℕ → (ℕ → Bool) → ℕ → Option ℕ
pick zero len skip i = none
pick (suc fuel) len skip i =
    let n = next_index len i in let rest = pick fuel len skip n in if skip n then rest else some n

pub skip_of : (ℕ → ℕ) → ℕ → Option Task → Bool
skip_of sems tick none = false
skip_of sems tick (some task) = must_skip sems tick task

abbrev pub skip_at : Kernel → ℕ → Bool
skip_at kernel i = skip_of kernel.sems kernel.tick (get_elem? kernel.tasks i)

-- The registers go to the task that runs.
abbrev pub save : Cpu → ℕ → Task → Task
save cpu resume task = record task {
  eip = resume;
  esp = cpu.esp;
  ebp = cpu.ebp;
  pagedir = cpu.pagedir;
}

abbrev pub load : Task → Cpu
load task = record { eip = task.eip; esp = task.esp; ebp = task.ebp; pagedir = task.pagedir }

-- What follows the loop: the task at `n` runs, with its registers and its page directory.
pub switch_to : Kernel → ℕ → Option (Kernel × Cpu)
switch_to kernel n = do
  move ← get_elem? kernel.tasks n
  some (
    record kernel { tasks = set kernel.tasks n (record move { state = running }); current = n },
    load move,
  )

-- The call, given the current task. `none` stands for the loop that finds no task; with no current
-- task the call returns.
pub leave_task : ℕ → ℕ → Cpu → Kernel → Option Task → Option (Kernel × Cpu)
leave_task fuel resume cpu kernel none = some (kernel, cpu)
leave_task fuel resume cpu kernel (some current) =
    let saved = record kernel {
      tasks = set kernel.tasks kernel.current (save cpu resume current);
    } in
    pick fuel (length saved.tasks) (skip_at saved) saved.current >>= switch_to saved

pub rrschedule_call : ℕ → ℕ → Cpu → Kernel → Option (Kernel × Cpu)
rrschedule_call fuel resume cpu kernel =
    leave_task fuel resume cpu kernel (get_elem? kernel.tasks kernel.current)

-- `usleep`: the current task sleeps until the tick that it computes; the scheduler call follows.
pub start_sleep : ℕ → Kernel → Task → Task
start_sleep useconds kernel task = record task {
  sleep = kernel.tick +w (useconds *w 100) / 1000;
  state = sleeping;
}

pub usleep : ℕ → ℕ → ℕ → Cpu → Kernel → Option (Kernel × Cpu)
usleep useconds fuel resume cpu kernel = get_elem? kernel.tasks kernel.current >>= λ task.
    rrschedule_call fuel resume cpu
      (record kernel { tasks = set kernel.tasks kernel.current (start_sleep useconds kernel task) })

-- `semaphore_wait`: the current task waits at a semaphore; the scheduler call follows.
pub semaphore_wait : ℕ → ℕ → ℕ → Cpu → Kernel → Option (Kernel × Cpu)
semaphore_wait sem fuel resume cpu kernel = get_elem? kernel.tasks kernel.current >>= λ task.
    rrschedule_call fuel resume cpu (record kernel {
      tasks = set kernel.tasks kernel.current (record task { state = waiting; sem = sem });
    })
