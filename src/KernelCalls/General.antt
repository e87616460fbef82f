-- ===== src/KernelCalls/General.antt =====
-- KernelExit, KernelGetPid, KernelDelay and KernelReclaim of KernelCalls/GeneralKernelCalls.c, the end
-- of KernelFork, the clock trap of TrapHandlers/TrapHandlers.c, and the dispatch of a process that runs
-- again to the code that its context was saved in.
use yallnix.Prelude.{
  zero, suc, none, some, Run, ok, fault, ◌>>=◌, deref, Ptr, ◌==◌, if◌then◌else◌, Status, error,
  success,
}
use yallnix.Prelude.Int.{ℤ, pos, negsuc}
use yallnix.Hardware.{Hardware}
use yallnix.Kernel.{
  Kernel, Resume, unwritten, starter, trap, finish, fork, acquire, cvar_wait, pipe_head, pipe_more,
  tty_read, tty_write, tty_batch, wait, err, val, Step, returned, to_user, switched, halted, yields,
}
use yallnix.Scheduler.{sleep_process, kick_process}
use yallnix.Scheduler.Exit.{exit_process}
use yallnix.Scheduler.Clock.{tick_down_sleepers}
use yallnix.SyncObjects.{get_lock, delete_lock, get_cvar, delete_cvar, get_pipe, delete_pipe}
use yallnix.KernelCalls.Lock.{kernel_acquire, acquire_loop}
use yallnix.KernelCalls.Pipe.{read_loop}
use yallnix.KernelCalls.Wait.{collect}
use yallnix.Terminal.{read_buffer, write_loop, transmit}

-- Halt(), if the call returned ERROR.
abbrev pub halt_on_error : Step → Step
halt_on_error s = do
  (o, k) ← s
  elim o [
    | returned rc ↦ elim rc [ err ↦ yields halted k | val n ↦ yields (returned (val n)) k ]
    | to_user ↦ yields to_user k
    | switched ↦ yields switched k
    | halted ↦ yields halted k
  ]

unfoldable pub kernel_exit : ℤ → Kernel → Step
kernel_exit status k = do
  pcb ← deref (k.pcbs k.curr)
  if pcb.pid == k.init_pid then yields halted k else halt_on_error (exit_process status k)

unfoldable pub kernel_get_pid : Kernel → Step
kernel_get_pid k = do pcb ← deref (k.pcbs k.curr); yields (returned (val pcb.pid)) k

unfoldable pub kernel_delay : ℤ → Kernel → Step
kernel_delay (pos zero) k = yields (returned (val 0)) k
kernel_delay (pos (suc n)) k = sleep_process (finish (val 0)) (pos (suc n)) k
kernel_delay (negsuc n) k = yields (returned err) k

unfoldable pub kernel_reclaim : ℤ → Kernel → Run (Status × Kernel)
kernel_reclaim id k = do
  lock ← get_lock id k
  elim lock [
    | some _ ↦ delete_lock id k
    | none ↦ do
      cvar ← get_cvar id k
      elim cvar [
        | some _ ↦ delete_cvar id k
        | none ↦ do
          pipe ← get_pipe id k
          elim pipe [ some _ ↦ delete_pipe id k | none ↦ ok (error, k) ]
      ]
  ]

-- The trap returns no value; ERROR halts the machine.
unfoldable pub handle_trap_clock : Kernel → Step
handle_trap_clock k = do
  (st, k₁) ← tick_down_sleepers k
  elim st [
    | error ↦ yields halted k₁
    | success ↦ do
      (o, k₂) ← halt_on_error (kick_process trap k₁)
      elim o [
        | returned rc ↦ yields to_user k₂
        | to_user ↦ yields to_user k₂
        | switched ↦ yields switched k₂
        | halted ↦ yields halted k₂
      ]
  ]

-- The comparison of process identifiers at the end of KernelFork.
unfoldable pub after_fork : Ptr → Ptr → Kernel → Step
after_fork parent child k = do
  me ← deref (k.pcbs k.curr)
  par ← deref (k.pcbs parent)
  if me.pid == par.pid then (do c ← deref (k.pcbs child); yields (returned (val c.pid)) k) else (do
    c ← deref (k.pcbs child)
    if me.pid == c.pid then yields (returned (val 0)) k else yields (returned err) k)

goes_on : Hardware → Resume → Kernel → Step
goes_on hw unwritten k = fault
goes_on hw starter k = yields to_user k
goes_on hw trap k = yields to_user k
goes_on hw (finish rc) k = yields (returned rc) k
goes_on hw (fork parent child) k = after_fork parent child k
goes_on hw (acquire lockp) k = acquire_loop lockp k
goes_on hw (cvar_wait lock_id) k = kernel_acquire lock_id k
goes_on hw (pipe_head pipep buf len) k = read_loop hw pipep buf len k
goes_on hw (pipe_more pipep buf len) k = read_loop hw pipep buf len k
goes_on hw (tty_read tty buf len) k = read_buffer tty buf len k
goes_on hw (tty_write spins tty bytes) k = write_loop spins tty bytes k
goes_on hw (tty_batch tty bytes len) k = transmit tty bytes len k
goes_on hw (wait status_ptr) k = collect status_ptr k

-- KernelContextSwitch returns in the process that runs now.
unfoldable pub resume : Hardware → Kernel → Step
unfolding goes_on
resume hw k = do pcb ← deref (k.pcbs k.curr); here ← deref pcb.kctxt; goes_on hw here k
