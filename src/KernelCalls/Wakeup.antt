-- ===== src/KernelCalls/Wakeup.antt =====
-- KernelCalls/CVarKernelCalls.c: the processes that a broadcast wakes.
use yallnix.Prelude.{
  ℕ, suc, ◌≡◌, ◌≢◌, refl, sym, ap, ◌∙◌, Bool-cases, inl, inr, Option, none, some, List, [], ◌∷◌,
  ◌++◌, ok, Ptr, null, if◌then◌else◌, success, arith, All,
}
use yallnix.Prelude.Int.{ℤ, pos, eq_ℤ, eq_ℤ_iff}
use yallnix.HashMap.{HashMap}
use yallnix.HashMap.Buckets.{IsValid}
use yallnix.HashMap.Laws.{view, find-view}
use yallnix.Kernel.{Kernel, Pcb, took}
use yallnix.Scheduler.Blocking.{unblock_process-ready}
use yallnix.SyncObjects.{get_cvar}
use yallnix.SyncObjects.Deletion.{Registered}
use yallnix.KernelCalls.Lock.{wake_waiter}
use yallnix.KernelCalls.Cvar.{set_cvar, broadcast_loop, kernel_cvar_broadcast}

-- The processes of a queue are alive, blocked and distinct.
abbrev pub AllBlocked : (Ptr → Option Pcb) → HashMap Ptr → List Ptr → Type 0
AllBlocked pcbs hm [] = Unit {0}
AllBlocked pcbs hm (p ∷ q) =
    ((pcb : Pcb) × (pcbs p ≡ some pcb) × (view hm (pos pcb.pid) ≡ some p))
    × All (λ x. p ≢ x) q
    × AllBlocked pcbs hm q

some-injective : {a b : Ptr} → some a ≡ some b → a ≡ b
some-injective e = ground arith

-- They stay so when another one is unblocked.
AllBlocked-removed :
    (pcbs : Ptr → Option Pcb) (hm hm' : HashMap Ptr) (p : Ptr) (pid : ℕ) (q : List Ptr)
    → view hm (pos pid) ≡ some p
    → ((j : ℤ) → view hm' j ≡ (if eq_ℤ (pos pid) j then none else view hm j))
    → All (λ x. p ≢ x) q
    → AllBlocked pcbs hm q
    → AllBlocked pcbs hm' q
AllBlocked-removed pcbs hm hm' p pid [] at gone out all = tt
AllBlocked-removed pcbs hm hm' p pid (x ∷ q) at gone out all =
    ((all.0.0, all.0.1, still), all.1, AllBlocked-removed pcbs hm hm' p pid q at gone out.1 all.2)
  where
    still : view hm' (pos all.0.0.pid) ≡ some x
    still = elim (Bool-cases (eq_ℤ (pos pid) (pos all.0.0.pid))) [
      | inl same ↦ absurd (
          out.0 (
            some-injective
              (sym at ∙ ap (view hm) ((eq_ℤ_iff (pos pid) (pos all.0.0.pid)).0 same) ∙ all.0.2)))
      | inr other ↦ gone (pos all.0.0.pid) ∙ rw other all.0.2
    ]

append_nil : (xs : List Ptr) → xs ++ [] ≡ xs
append_nil [] = refl
append_nil (x ∷ xs) = ap (◌∷◌ x) (append_nil xs)

append_assoc : (xs : List Ptr) (p : Ptr) (ys : List Ptr) → (xs ++ p ∷ []) ++ ys ≡ xs ++ p ∷ ys
append_assoc [] p ys = refl
append_assoc (x ∷ xs) p ys = ap (◌∷◌ x) (append_assoc xs p ys)

broadcast_loop-wakes :
    (cvarp : Ptr) (q ready : List Ptr) (hm : HashMap Ptr) (k : Kernel)
    → k.blocked ≡ some hm
    → IsValid hm
    → AllBlocked k.pcbs hm q
    → k.ready_q ≡ some ready
    → ((n : ℕ) → k.mallocs n ≢ null)
    → (k' : Kernel) × (broadcast_loop cvarp q k ≡ ok (success, k'))
      × (k'.cvars cvarp ≡ some [])
      × (k'.ready_q ≡ some (ready ++ q))
unfolding broadcast_loop wake_waiter
broadcast_loop-wakes cvarp [] ready hm k eb v all eq got =
    (set_cvar cvarp (some []) k, refl, ground arith, eq ∙ ap some (sym (append_nil ready)))
broadcast_loop-wakes cvarp (p ∷ q) ready hm k eb v all eq got =
    let k₁ : Kernel = set_cvar cvarp (some q) k in
    let (hm', run, v', gone) =
      unblock_process-ready k₁ all.0.0.pid p hm ready eb v all.0.2 eq (got 0) in
    let k₂ : Kernel = record (took k₁) { ready_q = some (ready ++ p ∷ []); blocked = some hm' } in
    let (k', rest, empty, queue) =
      broadcast_loop-wakes cvarp q (ready ++ p ∷ []) hm' k₂ refl v'
        (AllBlocked-removed k.pcbs hm hm' p all.0.0.pid q all.0.2 gone all.1 all.2) refl
        (λ n. got (suc n)) in
    (k', ground (arith, all.0.1, run, rest), empty, queue ∙ ap some (append_assoc ready p q))

-- `KernelCvarBroadcast` on a registered condition variable whose waiters are alive, distinct and
-- blocked, with a ready queue and memory: it succeeds, all waiters are ready, oldest first and
-- behind those that were, and none waits on the variable.
pub kernel_cvar_broadcast-wakes :
    (k : Kernel) (id : ℤ) (cvarp : Ptr) (q ready : List Ptr) (hm : HashMap Ptr)
    → Registered k.cvar_map id cvarp
    → k.cvars cvarp ≡ some q
    → k.blocked ≡ some hm
    → IsValid hm
    → AllBlocked k.pcbs hm q
    → k.ready_q ≡ some ready
    → ((n : ℕ) → k.mallocs n ≢ null)
    → (k' : Kernel) × (kernel_cvar_broadcast id k ≡ ok (success, k'))
      × (k'.cvars cvarp ≡ some [])
      × (k'.ready_q ≡ some (ready ++ q))
unfolding kernel_cvar_broadcast get_cvar
kernel_cvar_broadcast-wakes k id cvarp q ready hm r e eb v all eq got =
    let (k', run, empty, queue) = broadcast_loop-wakes cvarp q ready hm k eb v all eq got in
    (k', ground (arith, r.is, find-view id r.map r.valid r.fits, r.found, run), empty, queue)
