-- ===== src/KernelCalls/Mutex.antt =====
-- KernelCalls/LockKernelCalls.c: who holds a lock, and who waits for it.
use yallnix.Prelude.{
  ℕ, ◌≡◌, ◌≢◌, refl, sym, ap, ◌∙◌, false, Option, none, some, List, [], ◌∷◌, ◌++◌, ok, deref, Ptr,
  null, ◌==◌, error, success, arith, >>=-eq-ok, deref-eq, inl, inr, ◌⊎◌, Option-cases, Bool-cases,
}
use yallnix.Prelude.Int.{ℤ, pos}
use yallnix.HashMap.{HashMap}
use yallnix.HashMap.Buckets.{IsValid}
use yallnix.HashMap.Laws.{view, find-view}
use yallnix.Kernel.{
  Kernel, Lock, Pcb, acquire, err, val, Outcome, returned, switched, yields, fresh, took,
}
use yallnix.Scheduler.{block_process}
use yallnix.Scheduler.Blocking.{unblock_process-ready}
use yallnix.Scheduler.Outcomes.{block_process-not_val, block_process-locks}
use yallnix.SyncObjects.{get_lock}
use yallnix.SyncObjects.Deletion.{Registered}
use yallnix.KernelCalls.Lock.{
  set_lock, acquire_loop, wake_waiter, owns, release_lock, kernel_release,
}

get_lock-Registered :
    (k : Kernel) (id : ℤ) (lockp : Ptr)
    → Registered k.lock_map id lockp
    → get_lock id k ≡ ok (some lockp)
unfolding get_lock
get_lock-Registered k id lockp r = ground (arith, r.is, find-view id r.map r.valid r.fits, r.found)

owns-false : (p : Ptr) (o : Option Ptr) → o ≢ some p → owns p o ≡ false
owns-false p none h = refl
owns-false p (some q) h = ground arith

-- `KernelRelease` by the owner of a lock whose oldest waiter is alive and blocked, with a ready
-- queue and memory for a node: it succeeds, the lock has no owner, the waiter has left its queue
-- and is the youngest ready process, and the caller still runs.
pub kernel_release-hands_on :
    (k : Kernel) (id : ℤ) (lockp p : Ptr) (pcb : Pcb) (waiters ready : List Ptr) (hm : HashMap Ptr)
    → Registered k.lock_map id lockp
    → k.locks lockp ≡ some (record { owner = some k.curr; waiting_q = some (p ∷ waiters) })
    → k.pcbs p ≡ some pcb
    → k.blocked ≡ some hm
    → IsValid hm
    → view hm (pos pcb.pid) ≡ some p
    → k.ready_q ≡ some ready
    → fresh k ≢ null
    → (k' : Kernel) × (kernel_release id k ≡ ok (success, k'))
      × (k'.locks lockp ≡ some (record { owner = none; waiting_q = some waiters }))
      × (k'.ready_q ≡ some (ready ++ p ∷ []))
      × (k'.curr ≡ k.curr)
unfolding kernel_release release_lock wake_waiter
kernel_release-hands_on k id lockp p pcb waiters ready hm r el ep eb v at eq got =
    let k₁ : Kernel = set_lock lockp (record { owner = none; waiting_q = some waiters }) k in
    let (hm', run, v', gone) = unblock_process-ready k₁ pcb.pid p hm ready eb v at eq got in
    (
      record (took k₁) { ready_q = some (ready ++ p ∷ []); blocked = some hm' },
      ground (arith, run, get_lock-Registered k id lockp r),
      ground arith,
      refl,
      refl,
    )

-- `KernelRelease` of a registered lock by a process that does not own it returns ERROR, and
-- nothing changes.
pub kernel_release-foreign :
    (k : Kernel) (id : ℤ) (lockp : Ptr) (lock : Lock)
    → Registered k.lock_map id lockp
    → k.locks lockp ≡ some lock
    → lock.owner ≢ some k.curr
    → kernel_release id k ≡ ok (error, k)
unfolding kernel_release release_lock
kernel_release-foreign k id lockp lock r el other = elim (Option-cases lock.waiting_q) [
  | inl no_queue ↦ ground (arith, get_lock-Registered k id lockp r)
  | inr (q, has) ↦
      ground (arith, get_lock-Registered k id lockp r, owns-false k.curr lock.owner other)
]

-- The lock with the process in its queue, as the loop leaves it before the process blocks.
queued : Ptr → Ptr → List Ptr → Kernel → Kernel
queued lockp other waiters k =
    set_lock lockp (record { owner = some other; waiting_q = some (waiters ++ k.curr ∷ []) })
      (took k)

-- A held lock makes the process queue, if there is memory for its node, and block.
acquire_loop-held :
    (k : Kernel) (lockp other : Ptr) (q : Option (List Ptr))
    → k.locks lockp ≡ some (record { owner = some other; waiting_q = q })
    → ((k₁ : Kernel) × (acquire_loop lockp k ≡ ok (returned err, k₁)))
      ⊎ ((waiters : List Ptr) × (q ≡ some waiters)
          × (acquire_loop lockp k ≡ block_process (acquire lockp) (queued lockp other waiters k)))
unfolding acquire_loop queued
acquire_loop-held k lockp other none el =
    inl (set_lock lockp (record { owner = some other; waiting_q = none }) (took k), rw el)
acquire_loop-held k lockp other (some waiters) el = elim (Bool-cases (fresh k == null)) [
  | inl full ↦ inl (
    set_lock lockp (record { owner = some other; waiting_q = some waiters }) (took k),
    ground arith,
  )
  | inr got ↦ inr (waiters, refl, ground arith)
]

ends_eq : (o o' : Outcome) (k k' : Kernel) → yields o k ≡ yields o' k' → o ≡ o'
ends_eq o o' k k' e = ground arith

acquire_free :
    (k k' : Kernel) (lockp : Ptr) (n : ℕ) (o : Option Ptr) (q : Option (List Ptr))
    → k.locks lockp ≡ some (record { owner = o; waiting_q = q })
    → acquire_loop lockp k ≡ ok (returned (val n), k')
    → (o ≡ none) × (k' ≡ set_lock lockp (record { owner = some k.curr; waiting_q = q }) k)
unfolding acquire_loop
acquire_free k k' lockp n none q el e = ground arith
acquire_free k k' lockp n (some other) q el e = elim (acquire_loop-held k lockp other q el) [
  | inl (k₁, failed) ↦ cc (ends_eq _ _ k₁ k' (sym failed ∙ e))
  | inr (waiters, has, run) ↦ absurd (block_process-not_val (acquire lockp) _ k' n (sym run ∙ e))
]

-- When `KernelAcquire`, from its loop on, returns a value, the lock had no owner, and now its
-- owner is the process that called, which still runs.
pub acquire_loop-owner :
    (k k' : Kernel) (lockp : Ptr) (n : ℕ)
    → acquire_loop lockp k ≡ ok (returned (val n), k')
    → (lock : Lock) × (k.locks lockp ≡ some lock)
      × (lock.owner ≡ none)
      × (k'.locks lockp ≡ some (record lock { owner = some k.curr }))
      × (k'.curr ≡ k.curr)
unfolding acquire_loop
acquire_loop-owner k k' lockp n e =
    let (lock, e₁, e₂) = >>=-eq-ok (deref (k.locks lockp)) _ e in
    let el : k.locks lockp ≡ some lock = deref-eq (k.locks lockp) lock e₁ in
    let (free, same) = acquire_free k k' lockp n lock.owner lock.waiting_q el e in
    (lock, el, free, ap (λ z. z.locks lockp) same ∙ ground arith, ap (λ z. z.curr) same)

acquire_held :
    (k k' : Kernel) (lockp : Ptr) (o : Option Ptr) (q : Option (List Ptr))
    → k.locks lockp ≡ some (record { owner = o; waiting_q = q })
    → acquire_loop lockp k ≡ ok (switched, k')
    → (other : Ptr) × (waiters : List Ptr) × (o ≡ some other)
      × (q ≡ some waiters)
      × (k'.locks lockp
          ≡ some (record { owner = some other; waiting_q = some (waiters ++ k.curr ∷ []) }))
unfolding queued acquire_loop
acquire_held k k' lockp none q el e = cc (rw el at e)
acquire_held k k' lockp (some other) q el e = elim (acquire_loop-held k lockp other q el) [
  | inl (k₁, failed) ↦ cc (ends_eq _ _ k₁ k' (sym failed ∙ e))
  | inr (waiters, has, run) ↦
      let same =
        block_process-locks (acquire lockp) (queued lockp other waiters k) k' (sym run ∙ e) in
      (other, waiters, refl, has, ap (λ f. f lockp) same ∙ ground arith)
]

-- When `KernelAcquire`, from its loop on, gives the processor up, the lock is held, its owner
-- keeps it, and the process that called is the youngest in the queue of the lock.
pub acquire_loop-waits :
    (k k' : Kernel) (lockp : Ptr)
    → acquire_loop lockp k ≡ ok (switched, k')
    → (other : Ptr) × (waiters : List Ptr) × (k.locks lockp
        ≡ some (record { owner = some other; waiting_q = some waiters }))
      × (k'.locks lockp
          ≡ some (record { owner = some other; waiting_q = some (waiters ++ k.curr ∷ []) }))
unfolding acquire_loop
acquire_loop-waits k k' lockp e =
    let (lock, e₁, e₂) = >>=-eq-ok (deref (k.locks lockp)) _ e in
    let el : k.locks lockp ≡ some lock = deref-eq (k.locks lockp) lock e₁ in
    let (other, waiters, eo, eq, after) = acquire_held k k' lockp lock.owner lock.waiting_q el e in
    (other, waiters, ground arith, after)
