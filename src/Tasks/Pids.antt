-- ===== src/Tasks/Pids.antt =====
-- The pids of tasks.
use helix_os.Common.{
  ℕ, zero, suc, ◌+◌, ◌≡◌, ◌≢◌, refl, ap, ◌∙◌, true, false, some, List, [], ◌∷◌, ◌++◌, arith, ◌<◌,
  ◌≤◌, length, get_elem?, ◌==◌,
}
use helix_os.Tasks.{Process, find_pid}

abbrev pub HasNone : ℕ → List Process → Type 0
HasNone pid [] = Unit {0}
HasNone pid (task ∷ tasks) = (task.pid ≢ pid) × HasNone pid tasks

-- No two tasks have the same pid, and none has one above the counter.
abbrev pub Distinct : ℕ → List Process → Type 0
Distinct count [] = Unit {0}
Distinct count (task ∷ tasks) = (task.pid ≤ count) × HasNone task.pid tasks × Distinct count tasks

HasNone-above :
    (count : ℕ) (tasks : List Process) (pid : ℕ)
    → Distinct count tasks
    → count < pid
    → HasNone pid tasks
HasNone-above count [] pid d h = tt
HasNone-above count (task ∷ tasks) pid (le, out, d) h =
    (omega arith, HasNone-above count tasks pid d h)

HasNone-snoc :
    (pid : ℕ) (tasks : List Process) (new : Process)
    → HasNone pid tasks
    → new.pid ≢ pid
    → HasNone pid (tasks ++ new ∷ [])
HasNone-snoc pid [] new out ne = (ne, tt)
HasNone-snoc pid (task ∷ tasks) new out ne = (out.0, HasNone-snoc pid tasks new out.1 ne)

pub Distinct-snoc :
    (count : ℕ) (tasks : List Process) (new : Process)
    → Distinct count tasks
    → new.pid ≡ count + 1
    → Distinct (count + 1) (tasks ++ new ∷ [])
Distinct-snoc count [] new d e = (omega arith, tt, tt)
Distinct-snoc count (task ∷ tasks) new (le, out, d) e = (
  omega arith,
  HasNone-snoc task.pid tasks new out (omega arith),
  Distinct-snoc count tasks new d e,
)

pub find_pid_new :
    (count : ℕ) (tasks : List Process) (new : Process) (i : ℕ)
    → Distinct count tasks
    → count < new.pid
    → find_pid (tasks ++ new ∷ []) new.pid i ≡ some (i + length tasks)
unfolding find_pid
find_pid_new count [] new i d h =
    let self : (new.pid == new.pid) ≡ true = ground arith in
    let place : i + 0 ≡ i = omega arith in rw (self, place) refl
find_pid_new count (task ∷ tasks) new i (le, out, d) h =
    let apart : (task.pid == new.pid) ≡ false = ground arith in
    let place : i + 1 + length tasks ≡ i + suc (length tasks) = omega arith in
    rw apart (find_pid_new count tasks new (i + 1) d h ∙ ap some place)

HasNone-get :
    (pid : ℕ) (tasks : List Process) (k : ℕ) (task : Process)
    → HasNone pid tasks
    → get_elem? tasks k ≡ some task
    → task.pid ≢ pid
HasNone-get pid [] k task out e = cc
HasNone-get pid (first ∷ tasks) zero task out e =
    let one : first ≡ task = cc in λ f. out.0 (ap (λ (t : Process). t.pid) one ∙ f)
HasNone-get pid (first ∷ tasks) (suc k) task out e = HasNone-get pid tasks k task out.1 e

pub find_pid_old :
    (count : ℕ) (tasks : List Process) (new : Process) (i k : ℕ) (task : Process)
    → Distinct count tasks
    → get_elem? tasks k ≡ some task
    → find_pid (tasks ++ new ∷ []) task.pid i ≡ some (i + k)
unfolding find_pid
find_pid_old count [] new i k task d e = cc
find_pid_old count (first ∷ tasks) new i zero task (le, out, d) e =
    let one : first ≡ task = cc in
    let pids : first.pid ≡ task.pid = ap (λ (t : Process). t.pid) one in
    let self : (first.pid == task.pid) ≡ true = ground arith in
    let place : i + 0 ≡ i = omega arith in rw (self, place) refl
find_pid_old count (first ∷ tasks) new i (suc k) task (le, out, d) e =
    let differ = HasNone-get first.pid tasks k task out e in
    let apart : (first.pid == task.pid) ≡ false = ground arith in
    let place : i + 1 + k ≡ i + suc k = omega arith in
    rw apart (find_pid_old count tasks new (i + 1) k task d e ∙ ap some place)
