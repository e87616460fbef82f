-- ===== src/Scheduler/Outcomes.antt =====
-- How `blockProcess` of Scheduler.c ends for the call that it is part of.
use yallnix.Prelude.{
  ℕ, ◌≡◌, ◌≢◌, refl, ap, Option, none, some, List, [], ◌∷◌, ok, deref, Ptr, Status, error, success,
  >>=-eq-ok,
}
use yallnix.HashMap.{HashMap}
use yallnix.HashMap
use yallnix.Fifo
use yallnix.Kernel.{Kernel, Resume, err, val, returned, switched, yields, took}
use yallnix.Kernel.Switch.{switch_between, context_switch}
use yallnix.Scheduler.{run_ready, block_process}
use yallnix.Scheduler.Rotation.{run_ready-Ran}

switch-not_val :
    (here : Resume) (x : Option Ptr) (next : Ptr) (k k' : Kernel) (n : ℕ)
    → context_switch here x next k ≢ ok (returned (val n), k')
switch-not_val here x next k k' n e =
    let (k₁, e₁, e₂) = >>=-eq-ok (switch_between here x next k) _ e in cc

pub run_ready-not_val :
    (here : Resume) (x : Option Ptr) (k k' : Kernel) (n : ℕ) (q : Option (List Ptr))
    → k.ready_q ≡ q
    → run_ready here x k ≢ ok (returned (val n), k')
unfolding run_ready
run_ready-not_val here x k k' n none eq e = cc (rw (eq, Fifo.deq) at e)
run_ready-not_val here x k k' n (some []) eq e = cc (rw (eq, Fifo.deq) at e)
run_ready-not_val here x k k' n (some (next ∷ rest)) eq e =
    switch-not_val here x next (record k { ready_q = some rest }) k' n (rw eq at e)

-- A blocked process never gets a value from the call that blocks it.
pub block_process-not_val :
    (here : Resume) (k k' : Kernel) (n : ℕ) → block_process here k ≢ ok (returned (val n), k')
unfolding block_process
block_process-not_val here k k' n e =
    let (pcb, e₁, e₂) = >>=-eq-ok (deref (k.pcbs k.curr)) _ e in
    let ((st, m), e₃, e₄) = >>=-eq-ok (HashMap.insert _ _ _ k.blocked) _ e₂ in after_insert st m e₄
  where
    after_insert :
        (st : Status) (m : Option (HashMap Ptr))
        → elim st [
          | error ↦ yields (returned err) (record (took k) { blocked = m })
          | success ↦ run_ready here (some k.curr) (record (took k) { blocked = m })
        ]
          ≢ ok (returned (val n), k')
    after_insert error m e = cc
    after_insert success m e = run_ready-not_val here (some k.curr) _ k' n k.ready_q refl e

-- A switch that blocks a process changes no lock.
pub block_process-locks :
    (here : Resume) (k k' : Kernel) → block_process here k ≡ ok (switched, k') → k'.locks ≡ k.locks
unfolding block_process
block_process-locks here k k' e =
    let (pcb, e₁, e₂) = >>=-eq-ok (deref (k.pcbs k.curr)) _ e in
    let ((st, m), e₃, e₄) = >>=-eq-ok (HashMap.insert _ _ _ k.blocked) _ e₂ in after_insert st m e₄
  where
    after_insert :
        (st : Status) (m : Option (HashMap Ptr))
        → elim st [
          | error ↦ yields (returned err) (record (took k) { blocked = m })
          | success ↦ run_ready here (some k.curr) (record (took k) { blocked = m })
        ]
          ≡ ok (switched, k')
        → k'.locks ≡ k.locks
    after_insert error m e = cc
    after_insert success m e =
        let r = run_ready-Ran here (some k.curr) (record (took k) { blocked = m }) k' e in
        ap (λ s. s.locks) r.switched_to.same
