-- ===== src/Sched/Tests.antt =====
-- Runs of the scheduler, and its theorems at concrete task lists.
use native.Mathlib.Numerals.{add-one}
use helix_os.Common.{
  ℕ, zero, suc, ◌≤◌, ◌<◌, ◌≡◌, ◌≢◌, refl, Bool, true, false, Option, none, some, [], ◌∷◌, arith,
}
use helix_os.Sched.{
  Task, TaskState, Cpu, Kernel, running, sleeping, waiting, stopped, ended, must_skip, skip_of,
  next_index, pick, switch_to, leave_task, rrschedule_call, usleep, start_sleep,
}
use helix_os.Sched.Switch.{Switched, rrschedule_call-Switched}
use helix_os.Sched.Fair.{Turn, Turns, turn_not_early, ready_task_runs}

abbrev task : ℕ → TaskState → Task
task pid s = record {
  state = s;
  eip = 0;
  esp = 0;
  ebp = 0;
  pid = pid;
  sleep = 50;
  pagedir = 0;
  sem = 0;
  waiting = 0;
}

abbrev cpu : Cpu
cpu = record { eip = 0; esp = 0; ebp = 0; pagedir = 0 }

-- The second task sleeps, the third waits at a semaphore that is 0, the fourth is ready.
abbrev four : Kernel
four = record {
  tasks = task 0 running ∷ task 1 sleeping ∷ task 2 waiting ∷ task 3 running ∷ [];
  current = 0;
  tick = 10;
  sems = λ a. 0;
}

abbrev next_of : Option (Kernel × Cpu) → Option ℕ
next_of none = none
next_of (some out) = some out.0.current

skips_to_fourth : next_of (rrschedule_call 4 0 cpu four) ≡ some 3
unfolding rrschedule_call leave_task pick skip_of must_skip switch_to next_index
skips_to_fourth = refl

-- With the tick past its time the sleeper is next.
wakes_second : next_of (rrschedule_call 4 0 cpu (record four { tick = 50 })) ≡ some 1
unfolding rrschedule_call leave_task pick skip_of must_skip switch_to next_index
wakes_second = refl

-- A stopped task is not passed over.
runs_stopped :
    next_of (rrschedule_call 2 0 cpu (record four { tasks = task 0 running ∷ task 1 stopped ∷ [] }))
    ≡ some 1
unfolding rrschedule_call leave_task pick skip_of must_skip switch_to next_index
runs_stopped = refl

-- No task is ready after a lone task goes to sleep: the loop does not end.
lone_sleeper : usleep 1000 9 0 cpu (record four { tasks = task 0 running ∷ [] }) ≡ none
unfolding usleep start_sleep rrschedule_call leave_task pick skip_of must_skip switch_to next_index
lone_sleeper = refl

rrschedule_call-Switched_example :
    (n : ℕ) × (move : Task) × (out : Kernel × Cpu) × (rrschedule_call 4 0 cpu four ≡ some out)
    × Switched 0 cpu four (task 0 running) n move out
unfolding skip_of must_skip
rrschedule_call-Switched_example =
    rrschedule_call-Switched 0 cpu four (task 0 running) 3 refl (omega arith) refl

abbrev two : Bool → Kernel
two side = record {
  tasks = task 0 running ∷ task 1 running ∷ [];
  current = elim side [ true ↦ 1 | false ↦ 0 ];
  tick = 10;
  sems = λ a. 0;
}

abbrev flip : Bool → Bool
flip true = false
flip false = true

two-Turn : (side : Bool) → Turn (two side) (two (flip side))
unfolding rrschedule_call leave_task pick skip_of must_skip switch_to next_index
two-Turn true = record {
  resume = 0;
  cpu = cpu;
  cpu' = cpu;
  caller = task 1 running;
  at = refl;
  call = refl;
}
two-Turn false = record {
  resume = 0;
  cpu = cpu;
  cpu' = cpu;
  caller = task 0 running;
  at = refl;
  call = refl;
}

-- Two tasks that take turns.
side : ℕ → Bool
side zero = false
side (suc i) = flip (side i)

abbrev before : ℕ → Kernel
before i = two (side i)

abbrev after : ℕ → Kernel
after i = two (flip (side i))

turns : Turns before after 2
unfolding side
turns = record {
  turn = λ i. two-Turn (side i);
  same_current = λ i. rw add-one;
  same_length = λ i. refl;
}

turn_not_early_example :
    (sleeping ≡ sleeping → 50 ≤ 50)
    × (sleeping ≡ waiting → ◌≢◌ {A = ℕ} 0 0)
    × (sleeping ≡ ended → ◌≡◌ {A = ℕ} 0 0)
unfolding rrschedule_call leave_task pick skip_of must_skip switch_to next_index
turn_not_early_example =
    turn_not_early {before = record four { tick = 50 }}
      {after = record four {
        tick = 50;
        current = 1;
        tasks = task 0 running ∷ task 1 running ∷ task 2 waiting ∷ task 3 running ∷ [];
      }}
      (record {
        resume = 0;
        cpu = cpu;
        cpu' = cpu;
        caller = task 0 running;
        at = refl;
        call = refl;
      })
      {t = 3} (omega arith) refl (task 1 sleeping) refl

ready_task_runs_example : (k : ℕ) × (k < 2) × ((after k).current ≡ 1)
unfolding skip_of must_skip
ready_task_runs_example = ready_task_runs turns 1 (omega arith) (λ i. refl)
