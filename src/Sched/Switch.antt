-- ===== src/Sched/Switch.antt =====
-- `rrschedule_call`: the switch from the current task to the one that the loop finds.
use mathlib.Core.Path.{fun_ext, subst}
use helix_os.Common.{
  ℕ_discrete, ℕ, zero, suc, ◌<◌, ◌≡◌, ◌≢◌, refl, sym, ap, ◌∙◌, false, some, List, [], ◌∷◌, arith,
  get_elem?, set, length, length-set, get_elem?-set_self, get_elem?-set_ne,
}
use helix_os.Sched.{
  Task, Cpu, Kernel, running, must_skip, pick, skip_of, skip_at, save, load, switch_to, leave_task,
  rrschedule_call,
}
use helix_os.Sched.Pick.{Nearest, pick-Nearest, distance_bounds}

-- The tasks after the current one has given up the registers.
abbrev pub saved : ℕ → Cpu → Kernel → Task → Kernel
saved resume cpu kernel current = record kernel {
  tasks = set kernel.tasks kernel.current (save cpu resume current);
}

switch_to-load :
    (kernel : Kernel) (n : ℕ) (move : Task)
    → get_elem? kernel.tasks n ≡ some move
    → switch_to kernel n
      ≡ some (
        record kernel { tasks = set kernel.tasks n (record move { state = running }); current = n },
        load move,
      )
unfolding switch_to
switch_to-load kernel n move found = rw found

-- What `task` is, if it is `current` with the registers of `cpu` put away, to go on at `resume`.
pub record PutAway (resume : ℕ) (cpu : Cpu) (current : Task) (task : Task) : Type 0 where
  pub goes_on : task.eip ≡ resume
  pub stack : task.esp ≡ cpu.esp
  pub frame : task.ebp ≡ cpu.ebp
  pub pages : task.pagedir ≡ cpu.pagedir
  pub same_state : task.state ≡ current.state
  pub same_pid : task.pid ≡ current.pid
  pub same_sleep : task.sleep ≡ current.sleep
  pub same_sem : task.sem ≡ current.sem
  pub same_waiting : task.waiting ≡ current.waiting

save-PutAway :
    (resume : ℕ) (cpu : Cpu) (current : Task) → PutAway resume cpu current (save cpu resume current)
save-PutAway resume cpu current = record {
  goes_on = refl;
  stack = refl;
  frame = refl;
  pages = refl;
  same_state = refl;
  same_pid = refl;
  same_sleep = refl;
  same_sem = refl;
  same_waiting = refl;
}

-- What a switch from the task `current` leaves, where the task `move` at `n` is next.
pub record Switched (resume : ℕ) (cpu : Cpu) (kernel : Kernel) (current : Task) (n : ℕ)
    (move : Task) (out : Kernel × Cpu) : Type 0 where
  -- `n` is the nearest task that need not be skipped.
  pub nearest : Nearest (length kernel.tasks) (skip_at kernel) kernel.current n
  -- It may be the task that made the call, whose registers are put away before they are loaded.
  pub other_found : n ≢ kernel.current → get_elem? kernel.tasks n ≡ some move
  pub same_found : n ≡ kernel.current → PutAway resume cpu current move
  -- Its registers are loaded, it is the current task and runs.
  pub loaded :
      (out.1.eip ≡ move.eip)
      × (out.1.esp ≡ move.esp)
      × (out.1.ebp ≡ move.ebp)
      × (out.1.pagedir ≡ move.pagedir)
  pub current_next : out.0.current ≡ n
  pub runs : get_elem? out.0.tasks n ≡ some (record move { state = running })
  -- The registers of the task that gave way are saved, and no other task changes.
  pub given_way :
      n ≢ kernel.current
      → (task : Task) × (get_elem? out.0.tasks kernel.current ≡ some task)
        × PutAway resume cpu current task
  pub others :
      (i : ℕ) → i ≢ kernel.current → i ≢ n → get_elem? out.0.tasks i ≡ get_elem? kernel.tasks i
  pub same_length : length out.0.tasks ≡ length kernel.tasks
  pub same_tick : out.0.tick ≡ kernel.tick

pub some-injective : {A : Type 0} (x y : A) → some x ≡ some y → x ≡ y
some-injective x y e = cc

pub get_elem?_lt :
    {A : Type 0} (xs : List A) (i : ℕ) {x : A} → get_elem? xs i ≡ some x → i < length xs
get_elem?_lt [] i e = cc
get_elem?_lt (y ∷ xs) zero e = omega arith
get_elem?_lt (y ∷ xs) (suc i) e = omega (arith, get_elem?_lt xs i e)

pub get_elem?_total :
    {A : Type 0} (xs : List A) (i : ℕ) → i < length xs → (x : A) × (get_elem? xs i ≡ some x)
get_elem?_total [] i h = absurd (omega arith)
get_elem?_total (y ∷ xs) zero h = (y, refl)
get_elem?_total (y ∷ xs) (suc i) h = get_elem?_total xs i (omega arith)

skip_at-save :
    (resume : ℕ) (cpu : Cpu) (kernel : Kernel) (current : Task)
    → get_elem? kernel.tasks kernel.current ≡ some current
    → (i : ℕ) → skip_at (saved resume cpu kernel current) i ≡ skip_at kernel i
unfolding must_skip skip_of
skip_at-save resume cpu kernel current at i = elim (ℕ_discrete kernel.current i) [
  | yes e ↦
      rw (← e, get_elem?-set_self kernel.tasks kernel.current (save cpu resume current) inside, at)
  | no ne ↦ rw (get_elem?-set_ne kernel.tasks (save cpu resume current) ne)
]
  where
    inside : kernel.current < length kernel.tasks
    inside = get_elem?_lt kernel.tasks kernel.current at

module _ (resume : ℕ) (cpu : Cpu) (kernel : Kernel) (current : Task) where
  from : Kernel
  from = saved resume cpu kernel current

  length-from : length from.tasks ≡ length kernel.tasks
  unfolding from
  length-from = length-set kernel.tasks kernel.current (save cpu resume current)

  -- Saving registers does not change which tasks are to be skipped.
  skip_at-from :
      get_elem? kernel.tasks kernel.current ≡ some current → skip_at from ≡ skip_at kernel
  unfolding from
  skip_at-from at = fun_ext (skip_at-save resume cpu kernel current at)

  -- The kernel and the registers after the switch to `move` at `n`.
  abbrev switched : ℕ → Task → Kernel × Cpu
  switched n move = (
    record from { tasks = set from.tasks n (record move { state = running }); current = n },
    load move,
  )

  leave_task-switched :
      (n : ℕ) (move : Task)
      → get_elem? kernel.tasks kernel.current ≡ some current
      → pick (length kernel.tasks) (length kernel.tasks) (skip_at kernel) kernel.current ≡ some n
      → get_elem? from.tasks n ≡ some move
      → leave_task (length kernel.tasks) resume cpu kernel (some current) ≡ some (switched n move)
  unfolding leave_task from
  leave_task-switched n move at e found =
      rw (length-from, skip_at-from at, e) (switch_to-load from n move found)

  switched-Switched :
      (n : ℕ) (move : Task)
      → kernel.current < length kernel.tasks
      → Nearest (length kernel.tasks) (skip_at kernel) kernel.current n
      → get_elem? from.tasks n ≡ some move
      → Switched resume cpu kernel current n move (switched n move)
  unfolding from
  switched-Switched n move cur_in near found = record {
    nearest = near;
    other_found = λ ne. sym (get_elem?-set_ne kernel.tasks _ (λ e. ne (sym e))) ∙ found;
    same_found =
        λ e. subst (PutAway resume cpu current) (moved e) (save-PutAway resume cpu current);
    loaded = (refl, refl, refl, refl);
    current_next = refl;
    runs = get_elem?-set_self from.tasks n _ (omega (arith, length-from, near.inside));
    given_way = λ ne. (
      save cpu resume current,
      get_elem?-set_ne from.tasks _ ne ∙ get_elem?-set_self kernel.tasks kernel.current _ cur_in,
      save-PutAway resume cpu current,
    );
    others = λ i a b.
        get_elem?-set_ne from.tasks _ (λ e. b (sym e))
        ∙ get_elem?-set_ne kernel.tasks _ (λ e. a (sym e));
    same_length = length-set from.tasks n _ ∙ length-from;
    same_tick = refl;
  }
    where
      moved : n ≡ kernel.current → save cpu resume current ≡ move
      moved e = some-injective _ _ (
          sym (get_elem?-set_self kernel.tasks kernel.current (save cpu resume current) cur_in)
          ∙ ap (get_elem? from.tasks) (sym e)
          ∙ found)

  -- With a current task, and some task that need not be skipped, `rrschedule_call` switches to the
  -- nearest such task in the order of the list, and fuel for as many rounds as there are tasks is
  -- enough.
  pub rrschedule_call-Switched :
      (t : ℕ)
      → get_elem? kernel.tasks kernel.current ≡ some current
      → t < length kernel.tasks
      → skip_at kernel t ≡ false
      → (n : ℕ) × (move : Task) × (out : Kernel × Cpu) × (rrschedule_call
            (length kernel.tasks)
            resume
            cpu
            kernel
          ≡ some out)
        × Switched resume cpu kernel current n move out
  unfolding rrschedule_call from
  rrschedule_call-Switched t at inside ready =
      let len = length kernel.tasks in
      let cur_in = get_elem?_lt kernel.tasks kernel.current at in
      let (n, e, near) =
        pick-Nearest len len (skip_at kernel) kernel.current t cur_in inside ready
          (distance_bounds len kernel.current t cur_in inside).1 in
      let (move, found) = get_elem?_total from.tasks n (omega (arith, length-from, near.inside)) in
      (
        n,
        move,
        switched n move,
        rw at (leave_task-switched n move at e found),
        switched-Switched n move cur_in near found,
      )
