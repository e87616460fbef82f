-- ===== src/KernelCalls/Lock.antt =====
-- KernelCalls/LockKernelCalls.c: KernelAcquire and KernelRelease. KernelLockInit only calls initLock.
-- What follows the lookup of the lock is a function of its own.
use yallnix.Prelude.{
  Bool, false, Option, none, some, List, Run, ok, ◌>>=◌, deref, Ptr, ◌==◌, if◌then◌else◌, Status,
  error, success,
}
use yallnix.Prelude.Int.{ℤ}
use yallnix.Fifo
use yallnix.Kernel.{Kernel, Lock, acquire, err, val, Step, returned, yields, fresh, took, update}
use yallnix.Scheduler.{block_process, unblock_process}
use yallnix.SyncObjects.{get_lock}

abbrev pub set_lock : Ptr → Lock → Kernel → Kernel
set_lock lockp lock k = record k { locks = update k.locks lockp (some lock) }

-- The `while` loop and what follows it; a process that is woken runs it again.
unfoldable pub acquire_loop : Ptr → Kernel → Step
acquire_loop lockp k = do
  lock ← deref (k.locks lockp)
  elim lock.owner [
    | none ↦ yields (returned (val 0)) (set_lock lockp (record lock { owner = some k.curr }) k)
    | some other ↦
        let r : Status × Option (List Ptr) = Fifo.enq (fresh k) k.curr lock.waiting_q in
        let k₁ : Kernel = set_lock lockp (record lock { waiting_q = r.1 }) (took k) in
        elim r.0 [ error ↦ yields (returned err) k₁ | success ↦ block_process (acquire lockp) k₁ ]
  ]

unfoldable pub kernel_acquire : ℤ → Kernel → Step
kernel_acquire id k = do
  found ← get_lock id k
  elim found [ none ↦ yields (returned err) k | some lockp ↦ acquire_loop lockp k ]

-- `unblockProcess(waiterPcbp->pid)`, if there is a waiter.
unfoldable pub wake_waiter : Option Ptr → Kernel → Run (Status × Kernel)
wake_waiter none k = ok (success, k)
wake_waiter (some p) k = do pcb ← deref (k.pcbs p); unblock_process pcb.pid k

-- `lockp->ownerPcbp == currPCB`.
abbrev pub owns : Ptr → Option Ptr → Bool
owns p none = false
owns p (some q) = q == p

-- The part of the call behind `getLock`.
unfoldable pub release_lock : Ptr → Kernel → Run (Status × Kernel)
release_lock lockp k = do
  lock ← deref (k.locks lockp)
  elim lock.waiting_q [
    | none ↦ ok (error, k)
    | some q ↦
        let r : Option Ptr × Option (List Ptr) = Fifo.deq (some q) in
        let rest = wake_waiter r.0 (set_lock lockp (record { owner = none; waiting_q = r.1 }) k) in
        if owns k.curr lock.owner then rest else ok (error, k)
  ]

unfoldable pub kernel_release : ℤ → Kernel → Run (Status × Kernel)
kernel_release id k = do
  found ← get_lock id k
  elim found [ none ↦ ok (error, k) | some lockp ↦ release_lock lockp k ]
