-- ===== src/Paging/Fault.antt =====
-- `page_fault_handler`, and the memory maps of kernel/base/mem/memmap.c by which it decides.
use helix_os.Common.{
  ℕ, Bool, false, ◌&&◌, ◌||◌, Option, none, some, List, [], ◌∷◌, ltb, leb, ◌==◌, if◌then◌else◌,
  ◌>>=◌, ◌+w◌,
}
use helix_os.Paging.{Machine, page_of, map_page}

-- `memmap_t`
pub record Memmap : Type 0 where
  pub type : ℕ
  pub perms : ℕ
  pub start : ℕ
  pub stop : ℕ
  pub references : ℕ

pub memmap_create : ℕ → ℕ → ℕ → ℕ → Memmap
memmap_create start stop type perms = record {
  type = type;
  perms = perms;
  start = start;
  stop = stop;
  references = 0;
}

pub memmap_check : Memmap → ℕ → Bool
memmap_check map address = leb map.start address && ltb address map.stop

-- The fields of the current task that the handler uses; the list of maps is its nodes' data in order.
pub record Task : Type 0 where
  pub pid : ℕ
  pub pagedir : ℕ
  pub memmaps : Option (List Memmap)
  pub sem : ℕ

-- A panic, a return with the page mapped, or the call of `remove_task_by_pid` with its argument and the
-- task as it is then.
pub data Outcome : Type 0 where
  panicked : Outcome
  mapped : Machine → Outcome
  removes : ℕ → Task → Outcome

pub find_map : List Memmap → ℕ → Bool
find_map [] address = false
find_map (map ∷ maps) address = memmap_check map address || find_map maps address

pub in_maps : Option (List Memmap) → ℕ → Bool
in_maps none address = false
in_maps (some maps) address = find_map maps address

-- The handler ends in a call of `remove_task_by_pid` with the pid, which is not part of this model.
-- `*current->sem++` moves the pointer on; the semaphore stays as it is.
pub kill : Task → Outcome
kill task = removes task.pid (if task.sem == 0 then task else record task { sem = task.sem +w 4 })

-- `none` is a map whose page finds no frame in the bitmap.
pub page_fault_handler : ℕ → Machine → Option Task → ℕ → Option Outcome
page_fault_handler end m none fault_addr = some panicked
page_fault_handler end m (some task) fault_addr =
    if task.pid == 0
    then some panicked
    else (if in_maps task.memmaps fault_addr
        then (map_page end m task.pagedir (page_of fault_addr) 7 >>= λ r. some (mapped r.1))
        else some (kill task))
