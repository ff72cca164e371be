-- ===== src/Lib.antt =====
-- Verification of the kernel's core: processes and their scheduler, process identifiers, virtual
-- memory regions, boot memory, the buddy and slab allocators, the caches and byte helpers of the
-- file systems, locks and the clock.
--
-- The parts and their files:
--   Pid      kernel/pc/pid.c: the bitmap of process identifiers, `init_pid`, `pid_check`, `pid_alloc`,
--            `pid_free`.
--   Pc       kernel/pc/pc.c, include/zjunix/pc.h: the task table. `Pc/Queues` has the state and the
--            queues, `Pc/Scheduler` `find_next_task`, `clear_exited` and `pc_schedule`, `Pc/Life`
--            `init_pc`, `task_create`, `waitpid`, `pc_kill` and `pc_exit`; the other children
--            hold the proofs. `task_create`, `pc_kill` and `pc_exit` call the operations of `Pid`.
--   Vm       kernel/vm/vm.c, include/zjunix/vm.h: the list of regions of an address space.
--   Bootmm   kernel/mm/mybootmm.c, include/zjunix/bootmm.h: the page map of boot memory and the
--            table of its regions (`Bootmm/Info`).
--   Buddy    kernel/mm/mybuddy.c, include/zjunix/buddy.h: the marks of the pages and the free lists.
--            `Buddy/Tiling` and `Buddy/Rep` say what they stand for, `Buddy/Halves` has the
--            arithmetic of pairs, the other children go by the operations.
--   Slab     kernel/mm/myslab.c, include/zjunix/slab.h: the caches of small objects, `kmalloc` and
--            `kfree`, on pages of `Buddy`, with the state of the list node of each page.
--   Paging   kernel/pc/page.c, include/zjunix/page.h: page tables of two levels. `Paging/Walk` has what the
--            hardware reads from them.
--   FsCache  kernel/fs/fscache/fscache.c: the block cache with its clock, one model for the blocks of
--            512 and of 4096 bytes.
--   Fat      kernel/fs/fat/fat.c, kernel/fs/fat/utils.c: the file allocation table through its cache, which is
--            the cache of `FsCache` over a device that writes to the table and to its copy
--            (`Fat/Disk`). `Fat/Entries` and `Fat/Modify` have its entries, `Fat/Search` the search for a free
--            cluster, `Fat/Alloc` the allocation of one.
--   Fat32    kernel/vfs/fat32.c: the table, and the blocks and pages of an inode.
--   Bytes    kernel/vfs/utils.c: words in little-endian order, bits of a bitmap, file names.
--   VfsCache kernel/vfs/vfscache.c, include/zjunix/vfs/vfscache.h: the page cache and the look-up of the
--            directory cache.
--   VfsFile  kernel/vfs/read_write.c: `generic_file_read` over the pages of a file.
--   Lock     kernel/lock/mylock.c, include/zjunix/mylock.h: slots and tickets of the bakery lock; its wait
--            for the other tickets is not modelled. (kernel/lock/Makefile builds lock.c, whose flag is not
--            modelled.)
--   Time     kernel/time/time.c: the text of the clock.
--   Bitmap   what the bitmaps of Pid and Bytes share; Base: lists, Boolean tests, words of 32 bits.
--
-- State is passed explicitly: an operation takes the record of the globals of its file and returns
-- the new one. A pointer is a number with 0 for null, and a struct behind it is the value of a
-- function from pointers; rings of `struct list_head` are lists. Unsigned words keep their
-- wrap-around by `u32` and `sub32`. `none` in a result stands for a kernel that stops, a call
-- through a null pointer, or a loop that does not end, as the comment at each operation says.
--
-- Loops have a bound: 256 rounds of `pid_search`, one round for each buffer in the sweeps of the
-- cache, one for each page frame in `find_loop`, five levels in `find_order` and at most four in
-- `combine`, which stops at the largest level, all of them as in the source; the walks along the
-- regions take a fuel, which is enough when it is above the number of regions, as the theorems of
-- `Vm` suppose.
--
-- The SD card is a parameter (`FsCache.Disk.Device`, `Fat.Disk.Sectors` by single sectors, and what
-- the sectors hold in `Fat32`): reads and writes of a block, which may fail. So are the results of
-- `kmalloc` in `Paging`, the pages of a file in `VfsFile`, and `writepage` of the page cache, and what `kmalloc`, `mm_create` and the
-- registers supply is an argument. Not modelled: assembly, interrupts, device registers, output on
-- the screen, the other VFS operations, ext2, the directories of FAT32 under the VFS, the files and
-- directories of the older file system and the user programs.
pub mod Base
pub mod Bitmap
pub mod Pid
pub mod Bytes
pub mod FsCache
pub mod Bootmm
pub mod Vm
pub mod Pc
pub mod VfsCache
pub mod Time
pub mod Lock
pub mod Buddy
pub mod Slab
pub mod Paging
pub mod Fat
pub mod Fat32
pub mod VfsFile
