-- ===== src/Traps/Dispatch.antt =====
-- `handleTrapKernel`: the kernel call that a process asks for. Its code and the registers with the
-- arguments are a `Call`; the value that a step returns goes to the first register.
use yallnix.Prelude.{Bool, ◌+◌, ℕ, Option, none, some, List, ◌∷◌, ◌>>=◌, deref, error, success}
use yallnix.Prelude.Int.{ℤ, pos}
use yallnix.Hardware.{Hardware}
use yallnix.PageTable.{Pte}
use yallnix.Brk.{kernel_brk}
use yallnix.Kernel.{Kernel, err, val, Step, returned, halted, yields, set_pcb}
use yallnix.SyncObjects.{Created, init_lock, init_cvar, init_pipe}
use yallnix.KernelCalls.Lock.{kernel_acquire, kernel_release}
use yallnix.KernelCalls.Cvar.{kernel_cvar_wait, kernel_cvar_signal, kernel_cvar_broadcast}
use yallnix.KernelCalls.Pipe.{value, kernel_pipe_read, kernel_pipe_write}
use yallnix.KernelCalls.General.{kernel_exit, kernel_get_pid, kernel_delay, kernel_reclaim}
use yallnix.KernelCalls.Wait.{kernel_wait}
use yallnix.KernelCalls.Fork.{kernel_fork}
use yallnix.KernelCalls.Exec.{kernel_exec}
use yallnix.Terminal.{tables, kernel_tty_read, kernel_tty_write}
use yallnix.Loading.{Constants, File}

pub data Call : Type 0 where
  yalnix_fork : Call
  yalnix_exec : (filename argvec : ℕ) → Call
  yalnix_exit : (status : ℤ) → Call
  yalnix_wait : (status_ptr : ℕ) → Call
  yalnix_getpid : Call
  yalnix_brk : (addr : ℕ) → Call
  yalnix_delay : (clock_ticks : ℤ) → Call
  yalnix_reclaim : (id : ℤ) → Call
  yalnix_tty_read : (tty buf : ℕ) (len : ℤ) → Call
  yalnix_tty_write : (tty buf : ℕ) (len : ℤ) → Call
  yalnix_lock_init : (lock_idp : ℕ) → Call
  yalnix_lock_acquire : (lock_id : ℤ) → Call
  yalnix_lock_release : (lock_id : ℤ) → Call
  yalnix_cvar_init : (cvar_idp : ℕ) → Call
  yalnix_cvar_signal : (cvar_id : ℤ) → Call
  yalnix_cvar_broadcast : (cvar_id : ℤ) → Call
  yalnix_cvar_wait : (cvar_id lock_id : ℤ) → Call
  yalnix_pipe_init : (pipe_idp : ℕ) → Call
  yalnix_pipe_read : (pipe_id : ℤ) (buf : ℕ) (len : ℤ) → Call
  yalnix_pipe_write : (pipe_id : ℤ) (buf : ℕ) (len : ℤ) → Call
  -- A code that no call has.
  unknown : Call

-- The machine, the caller's memory, the files, and the constants: `string_at`, `words_at` and `bytes_at`
-- are what the memory holds as characters, as words from an address on, and as bytes from an address on.
-- `switches` is whether the KernelContextSwitch of execProcess succeeds.
pub record Env : Type 0 where
  pub hw : Hardware
  pub constants : Constants
  pub region0 : List Pte
  pub string_at : ℕ → Option ℕ
  pub words_at : ℕ → List ℕ
  pub bytes_at : ℕ → ℕ → ℕ
  pub strlen : ℕ → ℕ
  pub files : ℕ → File
  pub switches : Bool
  pub stack_frames : ℕ
  pub garbage : List ℕ
  pub spins : ℕ
  pub pipe_max_bytes : ℕ
  pub error_code : ℤ

-- The identifier goes to user memory.
unfoldable pub give_id : ℕ → Created → Step
give_id idp r = do
  (st, id, k) ← r
  let k₁ : Kernel = elim id [
    | none ↦ k
    | some n ↦ record k { stored = (k.curr, idp, pos n) ∷ k.stored }
  ]
  elim st [ error ↦ yields (returned err) k₁ | success ↦ yields (returned (val 0)) k₁ ]

-- KernelBrk of the process that runs.
unfoldable pub move_brk : Hardware → ℕ → Kernel → Step
move_brk hw addr k = do
  pcb ← deref (k.pcbs k.curr)
  (st, brk, mem) ← kernel_brk hw addr pcb.brk (record { table = pcb.r1_table; frames = k.frames })
  let k₁ : Kernel =
      set_pcb k.curr (record pcb { brk = brk; r1_table = mem.table })
        (record k { frames = mem.frames })
  elim st [ error ↦ yields (returned err) k₁ | success ↦ yields (returned (val 0)) k₁ ]

unfoldable pub handle_trap_kernel : Env → Call → Kernel → Step
handle_trap_kernel env yalnix_fork k = kernel_fork env.hw env.stack_frames env.garbage k
handle_trap_kernel env (yalnix_exec filename argvec) k = do
  t ← tables env.region0 k
  kernel_exec env.hw env.constants (env.files filename) t env.string_at env.strlen env.switches
      env.error_code filename (env.words_at argvec) k
handle_trap_kernel env (yalnix_exit status) k = kernel_exit status k
handle_trap_kernel env (yalnix_wait status_ptr) k = kernel_wait env.hw status_ptr k
handle_trap_kernel env yalnix_getpid k = kernel_get_pid k
handle_trap_kernel env (yalnix_brk addr) k = move_brk env.hw addr k
handle_trap_kernel env (yalnix_delay clock_ticks) k = kernel_delay clock_ticks k
handle_trap_kernel env (yalnix_reclaim id) k = value 0 (kernel_reclaim id k)
handle_trap_kernel env (yalnix_tty_read tty buf len) k =
    kernel_tty_read env.hw env.region0 tty buf len k
handle_trap_kernel env (yalnix_tty_write tty buf len) k =
    kernel_tty_write env.hw env.region0 env.spins tty buf (env.bytes_at buf) len k
handle_trap_kernel env (yalnix_lock_init lock_idp) k = give_id lock_idp (init_lock k)
handle_trap_kernel env (yalnix_lock_acquire lock_id) k = kernel_acquire lock_id k
handle_trap_kernel env (yalnix_lock_release lock_id) k = value 0 (kernel_release lock_id k)
handle_trap_kernel env (yalnix_cvar_init cvar_idp) k = give_id cvar_idp (init_cvar k)
handle_trap_kernel env (yalnix_cvar_signal cvar_id) k = value 0 (kernel_cvar_signal cvar_id k)
handle_trap_kernel env (yalnix_cvar_broadcast cvar_id) k = value 0 (kernel_cvar_broadcast cvar_id k)
handle_trap_kernel env (yalnix_cvar_wait cvar_id lock_id) k = kernel_cvar_wait cvar_id lock_id k
handle_trap_kernel env (yalnix_pipe_init pipe_idp) k = give_id pipe_idp (init_pipe k)
handle_trap_kernel env (yalnix_pipe_read pipe_id buf len) k =
    kernel_pipe_read env.hw pipe_id buf len k
handle_trap_kernel env (yalnix_pipe_write pipe_id buf len) k =
    kernel_pipe_write env.pipe_max_bytes pipe_id (λ i. env.string_at (buf + i)) len k
handle_trap_kernel env unknown k = yields halted k
