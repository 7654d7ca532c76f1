-- ===== src/Lib.antt =====
-- A verification library for the kernel of this repository: a small preemptive, multi-core
-- operating system in C for the Raspberry Pi. It covers the parts that the rest of the kernel
-- stands on: the growable array, the ring buffer and the hash map of kernel/data-structs, the threads
-- and locks of kernel/threading, the scheduler and the processes of kernel/scheduler, the masks and
-- actions of kernel/signals, the pipes of kernel/pipe, the lower half of the file system in kernel/fs
-- with its table of open files, and the parser of the shell in user/cmds/shell.
--
-- Base (Base/Lists, Base/Outcome, Base/Alloc) has numbers, lists of cells with checked accesses, the
-- three outcomes of code that may not return, and `kmalloc`. A `Run` is `ok` with a value, `fatal`
-- where the source calls `fatal_exception`, which ends the current thread or halts the machine, so
-- that the caller is not resumed, or `fault` where the source would touch memory out of bounds or
-- through NULL. `Ends P F r` says that `r` returns a value with `P`, or stops in `fatal` for the
-- reason `F`; with `F = ⊥` it always returns, and never is it a fault. `kmalloc` is a parameter, the
-- record `Allocator`: what it returns is as large as was asked for, or NULL.
--
-- Vec: kernel/data-structs/vec.c, one function per function of the source without the `vec_`; the
-- record holds the storage with its unused cells, and a log of the calls of the destructor.
-- Vec/Holds says which elements a vector holds; Vec/Grow, Vec/Loops and Vec/Shift have the proofs.
--
-- RingBuffer: kernel/data-structs/ring_buffer.c, by the names of the source. RingBuffer/Queue is the
-- queue that it stands for; RingBuffer/Window, RingBuffer/Holds and RingBuffer/Refine relate them.
--
-- HashMap: kernel/data-structs/hashmap.c, one function per function of the source without the
-- `hashmap_`. HashMap/Keys says which key a `hashmap_key_t` is, HashMap/Chain searches a bucket,
-- HashMap/Finite is the finite map that a hash map holds, and HashMap/Get, HashMap/Put,
-- HashMap/Remove and HashMap/Clear have the operations. No caller passes NULL for the map.
--
-- Process: the counters of kernel/scheduler/process.c and the state of a process; Process/Account
-- relates them to the states of the threads. What `send_sigchld` does then is not modelled, only
-- whether it is called.
--
-- Thread: the states and control blocks of kernel/threading/thread.h; a table from pointers to
-- control blocks is a function.
--
-- Transitions: `stop_thread`, `terminate_thread`, `block_thread`, `unblock_thread`, `continue_thread`
-- and `send_unblock_event` of kernel/threading/thread.c, with the calls of other parts as what they
-- return; Transitions/Account follows the threads of a process and its counters through them.
--
-- Scheduler: kernel/scheduler/scheduler.c, with the ready queues as three vectors. Each function runs
-- under `scheduler_lock`, so each is one step. Scheduler/Ready is the abstract scheduler on lists,
-- Scheduler/Fair bounds how long a priority waits, Scheduler/Find counts a thread in a queue,
-- Scheduler/Refine relates vectors and lists, and Scheduler/Next, Scheduler/Enqueue and
-- Scheduler/Tick have what each operation does. The scheduler uses the vectors through Vec/Holds.
--
-- Waking: `thread_get_by_tid` of kernel/threading/thread.c, and the step by which a lock makes a
-- stopped thread ready; Waking/Awake says what it does to the world. Semaphore:
-- kernel/threading/semaphore.c; Semaphore/Tokens has what a semaphore holds with `sem_init` and
-- `sem_wait`, Semaphore/Post has `sem_post`. Mutex: kernel/threading/mutex.c without the registry of
-- locks; Mutex/Owner has who owns a mutex and who waits, with `mutex_lock` and `mutex_trylock`, and
-- Mutex/Unlock has `mutex_unlock`. Condition: kernel/threading/cond_var.c, with waiting
-- and signalling in Condition/Signal. The source takes no spin lock in these functions; the model
-- takes each call, or each round of the loop of `mutex_lock`, as one step.
--
-- Signals: `sigaction`, `sigprocmask` and the operations on sets of kernel/signals/signals.c.
-- Signals/Actions follows the actions through sequences of calls, Signals/Masks the mask.
--
-- Pipe: kernel/pipe/pipe.c. A critical section under the lock of a pipe is one step, and the calls of
-- `unblock_thread` are what the step returns; `pipe` and `pipe_free` are left out. Pipe/Wake has the
-- invariant and the waking, Pipe/Order the reading and writing, Pipe/Stream with Stream/Reader and
-- Stream/Writer what one byte does to the stream, Pipe/Delivered any interleaving of a reader and a
-- writer. Pipes use the ring buffer through RingBuffer/Calls.
--
-- Shell: `parse_command` of user/cmds/shell/parser.c and `isspace` of user/lib/string.c. Shell/Chars and
-- Chars/Text are the characters of a line, Shell/Parser the two passes; Parser/Tokens, Parser/Passes,
-- Parser/Strings and Parser/Words relate them to the words of the line, Parser/Result and
-- Parser/Correct have the whole. `calloc` and `realloc` are a parameter.
--
-- Fs: the file system from the device up to its bitmaps. Fs/Errors has the codes of kernel/fs/errors.h,
-- `Result`, which a call returns, and the translation of fs/errors.c. Fs/Device, Fs/Bytes, Fs/Gpt and
-- Fs/Region are `configure_default_fs_region` of kernel/fs/disk.c, which finds the file system behind
-- the partitions, with proofs in Fs/Device/Place, Fs/Bytes/Read, Fs/Gpt/Within and Fs/Region/Within.
-- Fs/Layout is `mkfs` up to the writing of blocks, `fs_set_layout` and the superblock with its test;
-- Fs/Layout/Fits and Fs/Layout/Mkfs relate them, and Fs/Mount is `mount` up to the layout, with
-- Fs/Mount/Again. Fs/Driver is what the block device does, a parameter.
-- Fs/Cache is kernel/fs/caches/lru_cache.c with `read_block` and `write_block`: Fs/Cache/Nodes has its
-- list, Fs/Cache/Coherent the invariant, Fs/Cache/Through, Fs/Cache/Update and Fs/Cache/Empty the
-- operations, and Fs/Cache/Blocks fills the interface Fs/Store, by which the bitmaps use the cache.
-- Fs/Bitmap has the bitmaps: Fs/Bitmap/Bits in one block, Fs/Bitmap/Search for the search of a block,
-- Fs/Bitmap/Places, Fs/Bitmap/Find and Fs/Bitmap/Change for the whole. Fs/Blocks is the handing out
-- of blocks and inodes in kernel/fs/inodes.c, and Fs/Blocks/Fresh follows it through calls. Fs/Inode
-- is `get_block_num_from_inode` there, with Fs/Inode/Pointers on where the number of a block stands.
-- Fs/Oft is the table of open files in kernel/fs/oft.c: Fs/Oft/Find has its searches, Fs/Oft/Open and
-- Fs/Oft/Close what opening and closing do to the descriptors. What the calls on inodes and directories
-- return is an argument, and what runs under the lock of the table is one step.
-- Fs/InodeCache is kernel/fs/caches/inode_cache.c, with `get_inode_from_cache` in its critical sections:
-- InodeCache/Find has the list, InodeCache/Users the threads and their steps in any order, without
-- `empty_inode_cache`,
-- InodeCache/Sound what holds between them, InodeCache/Change, InodeCache/Turns, InodeCache/Joins,
-- InodeCache/Leaves and InodeCache/Reach that it does in every state, and InodeCache/Empty the emptying.
-- The linked list of the block cache is a list of nodes, and each call that the source brackets by a spin
-- lock is one step.
--
-- Loops are structural recursion on the rounds that are left, which the code's own bounds give
-- (`length` for the loops over a vector, 3 for those over the priorities, `size` for those over the
-- bytes of a key, the counters of the `for` loops of the file system, the number of nodes for
-- `lru_cache_empty` and `empty_inode_cache`, the length of the queue for waking up, the length of the line for the parser), so that no loop runs out of fuel: a theorem says that the call returns, or that it
-- stops for want of memory, never that it is right if it returns.
--
-- Not modelled: the delivery of signals, the creation of threads and processes, the context switch
-- and what follows it on the new stack (assembly), interrupts, page tables and device drivers
-- (registers), `mount` after the layout, the other operations on inodes, directories,
-- and the user programs but for that parser.
--
-- Tests holds the theorems at concrete inputs.
pub mod Base
pub mod Vec
pub mod RingBuffer
pub mod HashMap
pub mod Thread
pub mod Process
pub mod Transitions
pub mod Scheduler
pub mod Waking
pub mod Semaphore
pub mod Mutex
pub mod Pipe
pub mod Shell
pub mod Fs
pub mod Condition
pub mod Signals
mod Tests
