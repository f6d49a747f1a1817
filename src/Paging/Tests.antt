-- ===== src/Paging/Tests.antt =====
-- Runs of the paging code, and its theorems at a directory with no table.
use helix_os.Common.{ltb, if◌then◌else◌, ℕ, ◌≡◌, refl, true, some, List, [], ◌∷◌}
use helix_os.Paging.{Machine, kmalloc_early, early_start, align_up}
use helix_os.Paging.Fault.{Memmap, Task}

abbrev frames : List ℕ
frames = 255 ∷ 7 ∷ 0 ∷ []

abbrev machine : Machine
machine = record {
  memory = λ a. if ltb a 0x6000 then 0 else 99;
  early_placement = 0x5004;
  page_bitmap = some frames;
  last_free_page = 0;
  nfree_pages = 13;
  npages = 24;
  current_dir = 0x4000;
  kernel_dir = 0x4000;
  paging_enabled = true;
}

-- The memory behind the directory is not clear. A new table begins at the next page.
next_page : (kmalloc_early 0 0x1000 true machine).0 ≡ 0x6000
unfolding kmalloc_early early_start align_up
next_page = refl

abbrev stack : Memmap
stack = record { type = 3; perms = 11; start = 0x800000; stop = 0x802000; references = 0 }

abbrev process : Task
process = record { pid = 5; pagedir = 0x4000; memmaps = some (stack ∷ []); sem = 0 }
