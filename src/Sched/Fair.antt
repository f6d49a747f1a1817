-- ===== src/Sched/Fair.antt =====
-- No task that stays ready is passed over for longer than one round of the list, and no task is
-- woken early.
use mathlib.Core.Path.{subst}
use helix_os.Common.{
  ℕ, zero, suc, ◌+◌, ◌≤◌, ◌<◌, ◌≡◌, ◌≢◌, sym, ap, ◌∙◌, false, some, arith, get_elem?, length,
  ℕ_discrete,
}
use helix_os.Sched.{
  Task, Cpu, Kernel, sleeping, waiting, ended, must_skip, skip_of, skip_at, rrschedule_call,
}
use helix_os.Sched.Pick.{Nearest, distance, distance_bounds}
use helix_os.Sched.Switch.{rrschedule_call-Switched, get_elem?_lt, some-injective}

-- A call of the scheduler, made by the task that is current, with fuel for a round of the list.
pub record Turn (before : Kernel) (after : Kernel) : Type 0 where
  pub resume : ℕ
  pub cpu : Cpu
  pub cpu' : Cpu
  pub caller : Task
  pub at : get_elem? before.tasks before.current ≡ some caller
  pub call : rrschedule_call (length before.tasks) resume cpu before ≡ some (after, cpu')

nearer :
    (len i n t : ℕ)
    → i < len
    → n < len
    → t < len
    → distance len i n ≤ distance len i t
    → n ≢ t
    → distance len n t < distance len i t
nearer len i n t hi hn ht le ne = ground arith

ready_task :
    (sems : ℕ → ℕ) (tick : ℕ) (task : Task)
    → must_skip sems tick task ≡ false
    → (task.state ≡ sleeping → task.sleep ≤ tick)
      × (task.state ≡ waiting → sems task.sem ≢ 0)
      × (task.state ≡ ended → task.waiting ≡ 0)
unfolding must_skip
ready_task sems tick task r = (λ e. ground arith, λ e z. ground arith, λ e. ground arith)

module _ {before after : Kernel} (turn : Turn before after) {t : ℕ}
    (inside : t < length before.tasks) (ready : skip_at before t ≡ false) where
  turn-Nearest : Nearest (length before.tasks) (skip_at before) before.current after.current
  turn-Nearest =
      let (n, move, out, e, sw) =
        rrschedule_call-Switched turn.resume turn.cpu before turn.caller t turn.at inside ready in
      let same : out ≡ (after, turn.cpu') = some-injective out _ (sym e ∙ turn.call) in
      let there : n ≡ after.current = sym sw.current_next ∙ ap (λ o. o.0.current) same in
      subst (Nearest (length before.tasks) (skip_at before) before.current) there sw.nearest

  -- The task that a call of the scheduler switches to, where some task is ready, is not asleep
  -- before its tick, does not wait at a semaphore that is 0, and has not ended with others waiting
  -- for its status.
  pub turn_not_early :
      (task : Task)
      → get_elem? before.tasks after.current ≡ some task
      → (task.state ≡ sleeping → task.sleep ≤ before.tick)
        × (task.state ≡ waiting → before.sems task.sem ≢ 0)
        × (task.state ≡ ended → task.waiting ≡ 0)
  unfolding must_skip skip_of
  turn_not_early task there =
      let r : must_skip before.sems before.tick task ≡ false =
        ap (skip_of before.sems before.tick) (sym there) ∙ turn-Nearest.ready in
      ready_task before.sems before.tick task r

-- A sequence of calls: between two, the environment may change tasks, tick and semaphores, but
-- not which task is current nor how many there are.
pub record Turns (before after : ℕ → Kernel) (len : ℕ) : Type 0 where
  pub turn : (i : ℕ) → Turn (before i) (after i)
  pub same_current : (i : ℕ) → (before (i + 1)).current ≡ (after i).current
  pub same_length : (i : ℕ) → length (before i).tasks ≡ len

module _ {before after : ℕ → Kernel} {len : ℕ} (turns : Turns before after len) (t : ℕ)
    (inside : t < len) (ready : (i : ℕ) → skip_at (before i) t ≡ false) where
  near_turn : (i : ℕ) → Nearest len (skip_at (before i)) (before i).current (after i).current
  near_turn i =
      subst (λ l. Nearest l (skip_at (before i)) (before i).current (after i).current)
        (turns.same_length i)
        (turn-Nearest (turns.turn i) (omega (arith, turns.same_length i)) (ready i))

  caller_inside : (i : ℕ) → (before i).current < len
  caller_inside i = omega (
    arith,
    turns.same_length i,
    get_elem?_lt (before i).tasks (before i).current ((turns.turn i).at),
  )

  -- A turn that does not go to `t` brings it nearer.
  comes_nearer :
      (i : ℕ)
      → (after i).current ≢ t
      → distance len (before (i + 1)).current t < distance len (before i).current t
  comes_nearer i ne = rw (turns.same_current i) (
      nearer len (before i).current (after i).current t (caller_inside i) (near_turn i).inside
        inside ((near_turn i).first t inside (ready i)) ne)

  arrives :
      (d i : ℕ)
      → distance len (before i).current t ≤ d
      → (k : ℕ) × (i ≤ k) × (k < i + d) × ((after k).current ≡ t)
  arrives zero i near =
      absurd (omega (arith, (distance_bounds len (before i).current t (caller_inside i) inside).0))
  arrives (suc d) i near = elim (ℕ_discrete (after i).current t) [
    | yes e ↦ (i, omega arith, omega arith, e)
    | no ne ↦
        let (k, lo, hi, e) = arrives d (i + 1) (omega (arith, comes_nearer i ne)) in
        (k, omega arith, omega arith, e)
  ]

  -- In a sequence of scheduler calls, between which tasks, tick and semaphores may change but not
  -- the current task or the number of tasks, a task that is ready at every call becomes current
  -- within as many calls as there are tasks.
  pub ready_task_runs : (k : ℕ) × (k < len) × ((after k).current ≡ t)
  ready_task_runs =
      let (k, lo, hi, e) =
        arrives len 0 (distance_bounds len (before 0).current t (caller_inside 0) inside).1 in
      (k, omega arith, e)
