-- ===== src/Kernel.antt =====
-- The state that the modules of the kernel share: the globals of Scheduler.c, Lock.c, CVar.c and
-- Pipe.c, the process control blocks and the synchronization objects, which are reached by pointers
-- (`none` at an address is memory that is not, or no longer, allocated), and what `malloc` will
-- answer. `copied` and `stored` record what goes into user memory: the process, the address, and the
-- bytes or the number; `transmitted` records the calls of TtyTransmit, latest first. `line_max` is
-- TERMINAL_MAX_LINE of hardware.h.
pub mod Switch
pub mod Current
pub mod Saved
pub mod Contexts
pub mod Sample
mod Tests
use yallnix.Prelude.{
  ℕ, zero, suc, Bool, true, false, Option, none, some, List, [], ◌∷◌, Run, ok, fault, ◌>>=◌, deref,
  Status, error, success, Ptr, null, ◌==◌, if◌then◌else◌, not, map,
}
use yallnix.Prelude.Int.{ℤ, pos}
use yallnix.HashMap.{HashMap}
use yallnix.HashMap
use yallnix.Fifo
use yallnix.FrameList.{Frames}
use yallnix.PageTable.{Pte}

-- What a kernel call returns: ERROR, or a number that is not negative.
pub data Rc : Type 0 where
  err : Rc
  val : ℕ → Rc

-- A saved kernel context: the code that is left to run when KernelContextSwitch returns in it.
-- `unwritten` is memory for a context to which nothing has been written, from which no code can go on;
-- `starter` is the end of KernelStart, `trap` the end of a trap handler that returns no value,
-- `finish` that of a kernel call with its value. The others name the call and its variables; `spins`
-- is how many failed attempts to block a KernelTtyWrite will still make.
pub data Resume : Type 0 where
  unwritten starter trap : Resume
  finish : Rc → Resume
  fork : (parent child : Ptr) → Resume
  acquire : (lockp : Ptr) → Resume
  cvar_wait : (lock_id : ℤ) → Resume
  pipe_head : (pipep : Ptr) (buf len : ℕ) → Resume
  pipe_more : (pipep : Ptr) (buf len : ℕ) → Resume
  tty_read : (tty buf len : ℕ) → Resume
  tty_write : (spins tty : ℕ) (bytes : List ℕ) → Resume
  tty_batch : (tty : ℕ) (bytes : List ℕ) (len : ℕ) → Resume
  wait : (status_ptr : ℕ) → Resume

pub record Zombie : Type 0 where
  pub pid : ℕ
  pub exit_status : ℤ

-- PCB_t, less the user context.
pub record Pcb : Type 0 where
  pub pid : ℕ
  pub brk : ℕ
  pub kctxt : Option Resume
  pub children : Option (HashMap Ptr)
  pub num_children : ℕ
  pub parent : Option Ptr
  pub zombie_q : Option (List Zombie)
  pub r1_table : List Pte
  pub ticks : ℤ
  pub stack_pfns : List ℕ

-- lock_t.
pub record Lock : Type 0 where
  pub owner : Option Ptr
  pub waiting_q : Option (List Ptr)

-- pipe_t: the bytes of the buffer that are written and not yet read.
pub record Pipe : Type 0 where
  pub buffer : List ℕ
  pub waiting_q : Option (List Ptr)

-- ttyBuf_t: the bytes of the line that are not yet read.
pub record TtyBuf : Type 0 where
  pub line : List ℕ
  pub is_line_ready : Bool

pub record Kernel : Type 0 where
  pub curr : Ptr
  pub pcbs : Ptr → Option Pcb
  pub ready_q : Option (List Ptr)
  pub blocked : Option (HashMap Ptr)
  pub sleeping : Option (HashMap Ptr)
  pub transmitters : List (Option Ptr)
  pub transmitting_qs : List (Option (List Ptr))
  pub reading_qs : List (Option (List Ptr))
  pub buffers : List (Option TtyBuf)
  pub line_max : ℕ
  pub transmitted : List (ℕ × List ℕ)
  pub next_pid : ℕ
  pub init_pid : ℕ
  pub next_sync_id : ℕ
  pub frames : Frames
  pub lock_map : Option (HashMap Ptr)
  pub locks : Ptr → Option Lock
  pub cvar_map : Option (HashMap Ptr)
  pub cvars : Ptr → Option (List Ptr)
  pub pipe_map : Option (HashMap Ptr)
  pub pipes : Ptr → Option Pipe
  pub stack_map : List ℕ
  pub ptbr1 : Ptr
  pub copied : List (Ptr × ℕ × List ℕ)
  pub stored : List (Ptr × ℕ × ℤ)
  pub mallocs : ℕ → Ptr

-- How a piece of kernel code ends: it returns a value, goes back to user mode without one, hands the
-- processor to another process, or halts the machine.
pub data Outcome : Type 0 where
  returned : Rc → Outcome
  to_user switched halted : Outcome

abbrev pub Step : Type 0
Step = Run (Outcome × Kernel)

abbrev pub yields : Outcome → Kernel → Step
yields o k = ok (o, k)

abbrev pub update {ℓ} : {A : Type ℓ} → (Ptr → Option A) → Ptr → Option A → Ptr → Option A
update f p v a = if a == p then v else f a

-- The next answer of `malloc`, and the state behind it. Each call that may allocate takes one.
abbrev pub fresh : Kernel → Ptr
fresh k = k.mallocs 0

abbrev pub took : Kernel → Kernel
took k = record k { mallocs = λ n. k.mallocs (suc n) }

abbrev pub set_pcb : Ptr → Pcb → Kernel → Kernel
set_pcb p pcb k = record k { pcbs = update k.pcbs p (some pcb) }

-- `enq_q(readyQ, p)` and `deq_q(readyQ)`.
abbrev pub enq_ready : Ptr → Kernel → Status × Kernel
enq_ready p k =
    let r : Status × Option (List Ptr) = Fifo.enq (fresh k) p k.ready_q in
    (r.0, record (took k) { ready_q = r.1 })

abbrev pub deq_ready : Kernel → Option Ptr × Kernel
deq_ready k =
    let r : Option Ptr × Option (List Ptr) = Fifo.deq k.ready_q in (r.0, record k { ready_q = r.1 })
