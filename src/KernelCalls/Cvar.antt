-- ===== src/KernelCalls/Cvar.antt =====
-- KernelCalls/CVarKernelCalls.c: KernelCvarWait, KernelCvarSignal and KernelCvarBroadcast.
-- KernelCvarInit only calls initCvar.
use yallnix.Prelude.{
  Option, none, some, List, [], ◌∷◌, Run, ok, ◌>>=◌, deref, Ptr, Status, error, success,
}
use yallnix.Prelude.Int.{ℤ}
use yallnix.Fifo
use yallnix.Kernel.{Kernel, cvar_wait, err, Step, returned, yields, fresh, took, update}
use yallnix.Scheduler.{block_process}
use yallnix.SyncObjects.{get_cvar}
use yallnix.KernelCalls.Lock.{kernel_release, wake_waiter}

abbrev pub set_cvar : Ptr → Option (List Ptr) → Kernel → Kernel
set_cvar cvarp q k = record k { cvars = update k.cvars cvarp q }

-- The process that waits goes on with KernelAcquire(lock_id).
unfoldable pub kernel_cvar_wait : ℤ → ℤ → Kernel → Step
kernel_cvar_wait id lock_id k = do
  found ← get_cvar id k
  elim found [
    | none ↦ yields (returned err) k
    | some cvarp ↦ do
      q ← deref (k.cvars cvarp)
      let r : Status × Option (List Ptr) = Fifo.enq (fresh k) k.curr (some q)
      let k₁ : Kernel = set_cvar cvarp r.1 (took k)
      elim r.0 [
        | error ↦ yields (returned err) k₁
        | success ↦ do (st, k₂) ← kernel_release lock_id k₁; block_process (cvar_wait lock_id) k₂
      ]
  ]

unfoldable pub kernel_cvar_signal : ℤ → Kernel → Run (Status × Kernel)
kernel_cvar_signal id k = do
  found ← get_cvar id k
  elim found [
    | none ↦ ok (error, k)
    | some cvarp ↦ do
      q ← deref (k.cvars cvarp)
      let r : Option Ptr × Option (List Ptr) = Fifo.deq (some q)
      wake_waiter r.0 (set_cvar cvarp r.1 k)
  ]

-- The list is what the queue holds when the round begins.
unfoldable pub broadcast_loop : Ptr → List Ptr → Kernel → Run (Status × Kernel)
broadcast_loop cvarp [] k = ok (success, set_cvar cvarp (some []) k)
broadcast_loop cvarp (p ∷ q) k = do
  (st, k₁) ← wake_waiter (some p) (set_cvar cvarp (some q) k)
  elim st [ error ↦ ok (error, k₁) | success ↦ broadcast_loop cvarp q k₁ ]

unfoldable pub kernel_cvar_broadcast : ℤ → Kernel → Run (Status × Kernel)
kernel_cvar_broadcast id k = do
  found ← get_cvar id k
  elim found [
    | none ↦ ok (error, k)
    | some cvarp ↦ do q ← deref (k.cvars cvarp); broadcast_loop cvarp q k
  ]
