-- ===== src/Lib.antt =====
-- A model of the core of the MCSOS kernel, a teaching kernel for x86_64 in C, with the theorems
-- that say what each part promises.
--
-- The parts and how they meet. The boot code hands a memory map to the physical memory manager,
-- which keeps a bitmap of the 4 KiB frames and serves the page tables. The program loader checks
-- an ELF64 image and plans its segments inside the region that user programs may occupy. The
-- block layer gives the file systems access to disks by block, behind a cache that writes back.
-- The file system MCSFS1 keeps one directory of small files on such a device, and the virtual
-- file system gives a process open files in memory. A system call reaches the kernel through a
-- table of handlers, which check ranges of user memory. The scheduler keeps the ready kernel
-- threads in a queue. The synchronization module gives the other parts a spinlock, a mutex and a
-- checker of lock order.
--
-- Which file models what (paths from the repository's root):
--   Pmm    src/pmm.c, include/pmm.h. `Pmm` is `struct pmm_state`; a function `pmm_f` is `f`, the
--          part of it past the NULL test has a name of its own (`alloc`, `free_addr`, `reserve`,
--          `build`). Children: Bitmap (bits), Marks (the invariant `IsValid`, one frame), Ranges
--          and Coverage (ranges of bytes), Fresh and Init (the memory map), Alloc, Free, Ownership
--          (sequences of calls).
--   Elf    kernel/user/m11_elf_loader.c, include/mcsos/user/m11_elf_loader.h. The image is a list
--          of bytes, and headers are read little-endian, as the cast does on x86_64. Children:
--          Power, Bounds (the checks), Words, Plan (the loop), Load (the whole call).
--   Sync   kernel/sync, include/mcs_sync.h. Lockdep (order checker), Mutex and Spinlock: a call is
--          split at its atomic accesses, a thread is the place where it stands (`Pc`), and a
--          schedule is a list of threads, each of which makes one access.
--   Block  kernel/block, include/mcsos/block.h. The parent has the devices and the RAM disk
--          (ramblk.c), Blk the registry and the range check (blk.c), Cache the block cache
--          (bcache.c). Children with proofs: Copy, Disk (reads and writes of a RAM disk), Setup;
--          Cache/View (the invariant, and what is seen through the cache), Cache/Place,
--          Cache/Evict, Cache/Victim, Cache/Start, Cache/Serve, Cache/Store, Cache/Sweep. A device
--          pointer is a number with NULL as 0, and each cache entry holds its own slice of the
--          pool.
--   Mcsfs  fs/mcsfs1. The device is a parameter, a record of reads, writes and flushes on a state
--          `S`; a call is an action, from a state to an answer or an error and a state. The parent
--          has the device's calls, Memory the bytes and bits, Table the tables on the disk, Calls
--          the calls on files, Check `mcsfs1_fsck`. Children with proofs: Disk (what a device that
--          works answers), Alloc, Blocks and Inode (parts of a write), File (a write), ReadBack (a
--          read after it), Format, Strings, Directory and Entry (the search), Added, Made and
--          Create (a new file), Cleared, Removed and Unlink.
--   Vfs    kernel/vfs, include/mcsos/vfs/vfs.h. `World` is the file systems in memory by their
--          number, and a process's table of open files. Nodes has ramfs.c, Calls has fd.c. Children
--          with proofs: Copy, Layout, Resolve, Invariant and Run (the places of the files' bytes, and
--          sequences of calls), Access and Apart (writes and reads), Name (the comparison of names) and Open.
--   Sched  kernel/mcsos_thread.c, include/mcsos_thread.h. `Machine` is the memory of the threads and
--          the scheduler, a thread's pointer is a number. Children: Queue (the linked queue as a
--          list), Turn (a yield).
--   Syscall  kernel/syscall/syscall.c, include/mcsos/syscall.h. The other parts are reached through
--          operations that are parameters. Children: Range (the check of user ranges and the copy
--          from user memory), Serve (what reaches the serial output).
--   Memory kernel/lib/memory.c, on bytes by their address. Child: Move (overlapping copies).
--   Base   lists with native indices, words, bits and counts that the parts share.
--
-- Conventions. A C integer is a natural number, and an operation that can wrap says `% 2 ^ w`
-- (`add64`, `mul64`, `add32`). Masks and shifts by constants are `%`, `/` and `*`; the bitmap and
-- the power-of-two test keep the bit operations. A pointer that the code tests for NULL is an
-- option. An array is a list; a write out of range changes nothing and a read out of range gives
-- 0, where the C code would be undefined: the invariants keep every index in range. In Mcsfs, Vfs,
-- Syscall and Memory an array of bytes is a function of the offset, which says nothing of the code
-- outside the object; a read or a write behind the 8192 bytes of the file system in memory, which
-- the code does not prevent, is `none`.
--
-- Loops and fuel. A counted loop recurs on the rounds that are left. The loops over pages take the
-- number of frames as fuel; since they go up by one page and stop at the end of memory at the
-- latest, that is enough, and the theorems on ranges show that they reach every frame. The
-- comparison of two names of the file system in memory looks at 32 bytes, and it ends within them
-- when the stored name has its terminator there. The other loops are counted.
--
-- Not modelled: the boot, trap, interrupt, timer and serial code (port input and output), the
-- virtual memory manager, the heap, and the journal of MCSFS1. Weak memory orders are not
-- modelled: atomic accesses are sequentially consistent.
pub mod Base
pub mod Pmm
pub mod Elf
pub mod Sync
pub mod Block
pub mod Mcsfs
pub mod Vfs
pub mod Sched
pub mod Syscall
pub mod Memory
