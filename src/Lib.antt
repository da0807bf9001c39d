-- ===== src/Lib.antt =====
-- KernixOS: a model of the kernel's core, and what it does right.
--
-- The kernel is C code for one address space. What is modelled are the parts that carry its logic
-- without the hardware: the allocator of physical frames, the kernel heap, the scheduler with the
-- per-CPU records, the key event buffer, the string functions, the timer's subscribers, the registry
-- of components, the table of loadable modules, the file layer with its files in memory, the spin lock,
-- the memory routines, the partition table, the clock, and the workspaces and sessions of the screen,
-- the page tables, the processes of user space, the console, the files of ext4,
-- and the mouse.
--
-- Which file models which part:
--   Phys, Phys/Boot      core/kernel/mem/phys/physmem.c: the bitmap and the frame table, `scan` being
--                        the search loop of physmem_alloc_to, and physmem_init on the memory map of the
--                        boot loader.
--   Heap                 core/kernel/mem/heap/heap.c: malloc, free and heap_merge_free_blocks on a store
--                        that gives the header at each address.
--   Sched/Queue          task_queue_t of core/kernel/processes/scheduler.c.
--   Sched/Cpu            core/kernel/cpu/per_cpu.c, and the state of the scheduler.
--   Sched/Switch         perform_scheduling and its callers, terminate_task and unblock_task.
--   Sched/Create         create_new_task and initialize_scheduler.
--   Keyboard             the ring of core/kernel/mem/graphics_manager/keyboard.c.
--   Str                  common/string/string.c.
--   Timer                core/kernel/interrupts/timer/timer.c.
--   Component            core/kernel/module/module.c.
--   Vfs, Vfs/Resolve     core/fs/vfs/vfs.c (mounts, descriptors, paths) and core/fs/vfs/tmpfs/tmpfs.c
--                        (reading and writing).
--   Vfs/Commands         core/fs/vfs/commands.c over any file system's operations.
--   Vfs/Tree             the node tree of vfs.c and tmpfs.c; Vfs/Mounting: fs_mount and tmpfs_mount.
--   Lkm                  core/kernel/module/lkm.c.
--   Lock                 core/kernel/cpu/spinlock.c, and processors that take and release the lock in steps.
--   Mem                  core/drivers/memory/mem.c.
--   Disk                 core/drivers/partitions/partitions.c.
--   Ext4, Ext4/File      core/fs/ext4/ext4.c: blocks and inodes; reading, writing and the bitmap of inodes.
--   Mouse                core/drivers/ps2/mouse/mouse.c: packets and the place of the pointer.
--   Clock                core/drivers/cmos/cmos.c.
--   Paging               core/kernel/mem/paging/paging.c on the allocator of Phys.
--   UserSpace            core/kernel/mem/user_space/user_space.c on Paging.
--   Shell, Shell/Commands  core/kernel/shell/acsh.c and parser.c.
--   Graphics             workspace.c and session.c of core/kernel/mem/graphics_manager.
--   Kmem                 core/kernel/mem/kernel_memory/kernel_memory.c on the heap of Heap.
--   Base                 shared names, arrays, rings, tests on numbers, and panics.
-- A file below one of these proves what its name says; the files called Tests run the definitions on
-- concrete states.
--
-- How the model is built. Static variables are records that the functions take and return. Numbers are
-- natural numbers, and where a C type is too narrow for a result the definition wraps it (u8, u32, u64).
-- A pointer is an address with 0 for NULL, or an index with `none` for NULL where the source points into
-- one array. A panic is a result of its own (Base/Panic), as is the page fault of map_region's memset on an address
-- that is not mapped. Where C writes past an array the result says so and no state is given: fs_open and fs_mkdir
-- with too long a path, the copy of an ext4 inode without a NUL byte (`overrun`), and create_new_task with a
-- priority or a stack size that has no place (`faulted`). The scheduler calls its queues of Sched/Queue
-- through the records of Sched/Cpu; the path resolution calls find_mnt, and that the comparison of Str.
--
-- Fuel. The loops of heap.c follow pointers and run on fuel: one round for each block and one for NULL
-- is enough, and the theorems say that the calls return with it. The loop over the timer's subscribers
-- either goes on to the next or takes one out, so one round for each and one to leave is enough, and the
-- definition gives just that. The loops of ext4_read and ext4_write take at least one byte in each round,
-- so one round more than there are bytes is enough. The loop over the children of a directory follows pointers too; `none` is
-- its running out of fuel. Decimal output recurses on ten digits, which every u32 has at most, and the
-- reversal of a string on one round for each character. All other loops run over a list or a counted
-- range.
--
-- Not modelled: the bytes of heap payloads; the locks of the scheduler, which are taken and released
-- within one call; the assembly of the context switch; allocation inside the file layer, whose results
-- are arguments; callbacks (start-up functions, `lookup`, handlers), which are parameters or recorded
-- calls; output on the console; the other drivers, interrupts, drawing, the GUI and the commands of the shell.
-- The search for page table entries follows the tables and takes no large pages or rights into account; the
-- tables that the theorems speak of hold no large page.
-- Each file names what it leaves out of its source.
pub mod Base
pub mod Phys
pub mod Heap
pub mod Sched
pub mod Keyboard
pub mod Str
pub mod Timer
pub mod Component
pub mod Vfs
pub mod Kmem
pub mod Lkm
pub mod Lock
pub mod Mem
pub mod Disk
pub mod Clock
pub mod Graphics
pub mod Paging
pub mod UserSpace
pub mod Shell
pub mod Ext4
pub mod Mouse
