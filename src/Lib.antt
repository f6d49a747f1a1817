-- ===== src/Lib.antt =====
-- A verification library for the Helix kernel: parts of `kernel` that keep state or that
-- the rest of the kernel rests on. Each part below names the files that model it.
--
-- Scheduler: `Sched` and its children model `rrschedule_call` of kernel/base/tasking/rrsched.c
--   with the task list, the current task and the blocking calls `usleep` of
--   kernel/base/tasking/task.c and `semaphore_wait` of kernel/base/tasking/semaphore.c. A kernel
--   state is the list of tasks, the index of the current one, the tick and the semaphores by address.
--   `Sched.Pick` is about the search for the next task,
--   `Sched.Switch` about one call, `Sched.Fair` about sequences of calls, between which the
--   environment may change tasks, tick and semaphores.
-- Tasks: `Tasks` and its children model the creation of threads in kernel/base/tasking/task.c, with the
--   copies of open objects and directories over the store of `Vfs`. `Tasks.Create` is about the copies,
--   `Tasks.Pids` about pids in a list, `Tasks.Threads` about `create_thread`.
-- Pipes: `Pipe` and its children model kernel/base/datastructs/pipe.c. A pipe has a line (a ring of
--   bytes with a count) for every output. `Pipe.Ring` views a line as the list of the bytes it
--   holds; `Pipe.Write` and `Pipe.Lines` treat `pipe_write`, `Pipe.Read` treats `pipeline_read`,
--   and `Pipe.Queue` sequences of both, against a bounded queue.
-- Object tables: `Dlist` and its children model kernel/base/datastructs/dlist.c, an array of
--   pointers that grows by blocks, with the `krealloc` of `Salloc.Arrays`.
-- Kernel heap: `Salloc` and its children model how kernel/base/mem/salloc.c chooses a slab cache or
--   a run of pages for a size, and how kernel/base/mem/slabnew.c lays out a cache's blocks.
--   `Salloc.Arrays` models `sheap_realloc` as the owner of an array sees it: a block that is too small
--   shows fewer places than were asked for, and the size to copy of a block in pages is read where the
--   source reads it. What the memory of a new block held is a parameter.
-- Slab caches: `Slab` and its children model kernel/base/mem/slabnew.c for one cache, over a store of
--   the headers of its slabs. `Slab.Bits` is about the map of a slab, `Slab.Lists` about moves between
--   the lists of the cache, `Slab.Fresh` about allocation, `Slab.Setup` about a page that joins a
--   cache, and `Slab.Create` about a new cache with its first pages. `Salloc.Layout` is about where the
--   blocks of a cache lie.
-- Page allocator: `Region` and its children model `bitmap_region_alloc_page` and
--   `bitmap_region_free_page` of kernel/base/mem/region.c over the list of the bitmap's bytes. The
--   paging code is a state of any type with the functions that the allocator calls. `Region.Bits` is
--   about single bits of a byte, `Region.Runs` about the bits of the bitmap, `Region.Search` about the
--   search, `Region.Alloc` and `Region.Loop` about a call that takes pages, `Region.Free` about release.
-- String routines: `Strings` and its children model kernel/base/string.c over a memory that is a
--   function from addresses to bytes. `Strings.Blocks` has the routines on blocks, `Strings.Scan` those
--   that measure and compare strings, `Strings.Copies` those that copy them.
-- FAT: `Fat` models kernel/modules/fatfs/clusters.c over a device whose `read` is a field, and
--   `Fat.Entries` is about the table's entries, `Fat.Sectors` about the sectors of a cluster.
-- Virtual file system: `Vfs` and its children model the calls on descriptors of
--   kernel/base/vfs/vfs_syscalls.c, path lookup of kernel/base/vfs/vfs.c and `pobj_copy`,
--   `pobj_get` and `pobj_free` of kernel/base/tasking/pobj.c, for one task, whose object table is a
--   `Dlist`. File
--   objects and directory nodes are in a store by address, so that a block that was freed is missing.
--   The drivers are a parameter (`Funcs`, the table of a file system's functions, over a state of any
--   type), and so are the roots of what is mounted. `Vfs.Lookup` is path lookup, and `Vfs.Lookup.Walk`
--   is about it; `Vfs.Open` is `vfs_open`, `vfs_chdir` and `vfs_chroot`, with `Vfs.Open.Result` and
--   `Vfs.Open.Dirs`; `Vfs.Seek` is `vfs_lseek` and `vfs_fcntl`; `Vfs.Objects` is about descriptors,
--   `Vfs.Once` about a call that does not wait, `Vfs.Cursor` about reads, `Vfs.Close` about closing
--   and `Vfs.Errors` about bad descriptors.
-- Pipes between processes: `PipeCalls` and its children model kernel/base/ipc/pipes.c, as a driver of
--   `Vfs` whose state has the pipes of `Pipe`, and kernel/base/datastructs/shared.c. A block that was
--   freed is marked, and its memory stays what it was. `PipeCalls.Transfer` is about the driver's read
--   and write, `PipeCalls.Ends` about the calls on both descriptors, `PipeCalls.Made` about
--   `make_pipes`, `PipeCalls.Carry` about all of these, `PipeCalls.Counts` about references.
-- Lists: `LinkedList` and its children model kernel/base/datastructs/list.c over a store of nodes, and
--   `LinkedList.Hashmap` models kernel/base/datastructs/hashmap.c. `LinkedList.Chain` views a list as
--   its cells, `LinkedList.Hashmap.Lookup` and `LinkedList.Hashmap.Remove` are about the hashmap. The
--   scheduler's list of tasks is a plain list in `Sched`.
-- Paging: `Paging` and its children model kernel/base/arch/i586/paging.c over a memory of words, with
--   `kmalloc_early` of kernel/base/mem/alloc.c, from which the tables come. `Paging.Tables` says when a
--   directory is well formed, `Paging.Map` is about entries, `Paging.Frames` about the search for a
--   frame, `Paging.Owned` about `map_page` and `free_page`, and `Paging.RoundTrip` about both.
--   `Paging.Fault` models `page_fault_handler` and the maps of kernel/base/mem/memmap.c.
-- File system in memory: `Dynstring` models kernel/base/datastructs/dynstring.c, and `Ramfs` and its
--   children model kernel/base/vfs/ramfs/ramfs.c, whose tables are `Dlist`s; `Dlist.Table` treats those
--   with a wrong count. `Ramfs.Files` is about bytes of a file, `Ramfs.Dirs` about entries.
-- Command line: `Cmdline` models kernel/base/cmdline.c, and `Cmdline.Words` is about lines that are
--   written out from options.
-- Shared helpers: `Common` and its children: Boolean tests, lists, 32-bit words, memory, finite
--   tables that are checked by evaluation.
--
-- Numbers. `unsigned` and `unsigned long` have 32 bits on the kernel's target, and their arithmetic
-- is written `+w`, `-w` and `*w`. A loop counter that the loop's own condition bounds is a plain
-- number. The memory of the string routines has no end, so addresses
-- do not wrap there.
--
-- Fuel. A loop that ends at a NUL, at a ready task, at a valid size class or at a free bit takes
-- fuel, and `none` means that it ran out. More fuel than the string has bytes is enough for the
-- string loops, as many rounds as there are tasks for the scheduler if a task is ready (else the
-- loop of the source does not end), 18 rounds for the size classes, and 8 for the search in a byte
-- of the bitmap that is not full. In the page allocator `none` is also an access outside the bitmap.
-- A path is looked up in as many rounds at most as it has bytes. A read or a write that waits for
-- another task takes a round for every wait, and `none` of these calls is also a read of a file object
-- or node that is gone. A list is walked to its end with more fuel than it has nodes, and `none` is
-- also a read of a list node that is gone. `map_pages` and `remap_pages` take a round for every page.
--
-- Not modelled: drivers, interrupt entry, descriptor tables and start-up, which are port input and
-- output and assembly; formatted output; the C++ modules; the tools. The creation of processes, the
-- removal of tasks, the registration of file systems, and the file
-- systems but for the one in memory and FAT's clusters are not modelled.
pub mod Common
pub mod Strings
pub mod Pipe
pub mod Dlist
pub mod Sched
pub mod Salloc
pub mod Region
pub mod Fat
pub mod Vfs
pub mod PipeCalls
pub mod LinkedList
pub mod Paging
pub mod Dynstring
pub mod Ramfs
pub mod Slab
pub mod Tasks
pub mod Cmdline
