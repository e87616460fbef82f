-- ===== src/Lib.antt =====
-- The kernel of Yalnix: a teaching operating system with processes, demand-allocated pages, locks,
-- condition variables, pipes and terminals, on a simulated machine.
--
-- Parts, from the bottom. The general data structures (GeneralDataStructures/Queue, .../HashMap) hold
-- every list of processes and every table of identifiers. The frame list and the page tables
-- (KernelDataStructures/FrameList, .../PageTable) account for physical memory; the break calls work on
-- both. The scheduler (KernelDataStructures/Scheduler) owns the ready queue, the maps of blocked and
-- sleeping processes and the queues of the terminals, and switches contexts. The synchronization
-- objects (KernelDataStructures/SyncObjects) live in maps by identifier, and the kernel calls on them
-- (KernelCalls/) block and unblock processes through the scheduler.
--
-- Files:
--   Prelude     numbers, lists, results of code that may fault, and pointers (0 is NULL)
--   Queue       Queue.c on a heap of nodes: make_q, enq_q, deq_q, peek_q, iterate_q, delete_q
--   Fifo        the same operations on lists, as the modules of the kernel use them
--   Set         set.c: a bucket is the list of its nodes, newest first
--   HashMap     HashMap.c: an array of buckets, with the index that `%` of C gives
--   Hardware    the constants of hardware.h, which are parameters
--   FrameList   FrameList.c, with the record that lies behind the array
--   PageTable   PageTable.c, with the registers and the TLB of the MMU
--   Brk         KernelBrk (GeneralKernelCalls.c) and, in Own, what SetKernelBrk (Kernel.c) leaves
--   Kernel      the state that the kernel modules share; Kernel.Switch is switchBetween and forkTo
--   Scheduler   Scheduler.c: running, blocking, sleeping, forking; Tty the terminal queues, Clock
--               tickDownSleepers and, from Sleepers to Delay, how long a process sleeps, Exit exitProcess
--               and delete_process, with what the parent is told, what runs next and what is left
--               dangling, Creation initPCB, Start initScheduler, Runs any sequence of its calls,
--               with the theorems of the modules Places on which it rests
--   SyncObjects Lock.c, CVar.c and Pipe.c: creation, lookup, deletion
--   UserMemory  isValidBuffer and isValidString of GeneralKernelCalls.c
--   Terminal    TtyBuffer.c and TtyKernelCalls.c
--   KernelCalls the calls of LockKernelCalls.c, CVarKernelCalls.c, PipeKernelCalls.c and the others of
--               GeneralKernelCalls.c, and what each goes on with after a context switch; Reaping is
--               a child's exit and the call of its parent that collects it
--   Traps       TrapHandlers.c, but for the clock, which is in KernelCalls.General;
--               Dispatch chooses the kernel call
--   Loading     LoadProgram.c: the checks, the layout of the arguments, the page table
--   Boot        Kernel.c: SetKernelData, the first page table, and in Start the whole of KernelStart
--
-- State is passed explicitly. A call that reads memory which is not allocated, or outside of an array,
-- is a `fault`. What `malloc` returns is an argument, or a stream in the state of the kernel. A context
-- switch ends a call with the outcome `switched`; what the call still has to do is the value that is
-- saved as the kernel context of its process, and `KernelCalls.General.resume` runs it when the
-- process runs again. A pointer to a queue or map is NULL or the list or map itself.
--
-- Bounds. Addresses and page table entries are unsigned int, so their sums are taken modulo 2 ^ 32; a
-- frame number is a bit field of 24 bits. Sizes, process numbers and identifiers are numbers without a
-- bound. The loops of Queue run on fuel, since a damaged list may be a cycle; more fuel than the queue
-- has nodes is enough. The loop over the pages of a buffer and the one over the batches of a write run
-- on fuel too, their number of bytes, which is enough as each round takes at least one. The loop that
-- waits for a terminal goes on after a failed attempt to block, `spins` times. The other loops are
-- structural.
--
-- KernelContextSwitch of the hardware library is taken to succeed, but in KernelExec, where what it
-- answers is a parameter. A kernel context that is allocated and not yet written is the value
-- `unwritten`, from which no code goes on. What a pipe call copies through the pointer of its caller,
-- which nothing has tested, is a fault unless the bytes are mapped in region 1; a copy into the kernel's
-- own memory, which the machine would overwrite, is a fault of the model too. The identifier that an
-- init call writes, through a pointer that nothing has tested either, is only recorded.
--
-- Not modelled: getStarterKernelState, which copies the machine's context; the calls of SetKernelBrk that
-- `malloc` makes, which take frames on the side (what they leave of the break at boot is a parameter);
-- the bytes of pages that are copied, read from files or cleared, and the user context; the user programs.
pub mod Prelude
pub mod Queue
pub mod Set
pub mod HashMap
pub mod Hardware
pub mod FrameList
pub mod PageTable
pub mod Brk
pub mod Fifo
pub mod Kernel
pub mod Scheduler
pub mod SyncObjects
pub mod KernelCalls
pub mod UserMemory
pub mod Terminal
pub mod Traps
pub mod Loading
pub mod Boot
