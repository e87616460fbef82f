-- ===== src/Boot/Start/Queues.antt =====
-- What `initScheduler` of Scheduler.c leaves of the state.
use yallnix.Prelude.{
  ℕ, zero, suc, ◌+◌, ◌≡◌, refl, ap, Option, none, some, Run, ok, Ptr, null, ◌==◌, arith, subst,
  >>=-eq-ok, Bool-cases, inl, inr, Status, error, success, [],
}
use yallnix.HashMap.{HashMap}
use yallnix.HashMap
use yallnix.Kernel.{Kernel, fresh, took}
use yallnix.Scheduler.Creation.{answers, took_many}
use yallnix.Scheduler.Start.{
  init_queues, init_terminals, init_sleeping, init_blocked, init_scheduler,
}
use yallnix.Boot.Start.Quiet.{Quiet, Quiet-refl, Quiet-took, Quiet-then, Quiet-behind, after}

init_queues-Quiet : (n : ℕ) (k : Kernel) → Quiet k (init_queues n k).3
unfolding init_queues
init_queues-Quiet zero k = Quiet-refl k
init_queues-Quiet (suc n) k =
    let two : Quiet k (took_many 2 k) = Quiet-behind 2 k (took_many 2 k) (took_many 2 k) refl in
    elim (Bool-cases (k.mallocs 0 == null)) [
      | inl e ↦ rw e (Quiet-took k)
      | inr e ↦ elim (Bool-cases (k.mallocs 1 == null)) [
        | inl f ↦ rw (e, f) two
        | inr f ↦ rw (e, f) (Quiet-then two (init_queues-Quiet n (took_many 2 k)))
      ]
    ]

init_terminals-Quiet : (n : ℕ) (k : Kernel) → Quiet k (init_terminals n k).1
unfolding init_terminals
init_terminals-Quiet n k =
    let q = init_queues-Quiet n k in
    record {
      curr = q.curr;
      transmitters = q.transmitters;
      stack_map = q.stack_map;
      taken = q.taken;
      mallocs = q.mallocs;
    }

sleeping-Quiet :
    (n : ℕ) (k k₁ k' : Kernel) (m : Option (HashMap Ptr))
    → Quiet k k₁
    → elim m as (λ _. Run (Status × Kernel)) [
      | none ↦ ok (error, k₁)
      | some _ ↦ ok (init_terminals n k₁)
    ]
      ≡ ok (success, k')
    → Quiet k k'
sleeping-Quiet n k k₁ k' none q e = cc
sleeping-Quiet n k k₁ k' (some hm) q e =
    subst (Quiet k) (after _ success _ k' e) (Quiet-then q (init_terminals-Quiet n k₁))

init_sleeping-Quiet : (n : ℕ) (k k' : Kernel) → init_sleeping n k ≡ ok (success, k') → Quiet k k'
unfolding init_sleeping
init_sleeping-Quiet n k k' e =
    let (m, e₁, e₂) =
      >>=-eq-ok (HashMap.new {V = Ptr} 20 (answers k 0) (answers k 1) (λ i. answers k (2 + i))) _
        e in
    let k₁ : Kernel = record (took_many 22 k) { sleeping = m } in
    sleeping-Quiet n k k₁ k' m (Quiet-behind 22 k k₁ k₁ refl) e₂

blocked-Quiet :
    (n : ℕ) (k k₁ k' : Kernel) (m : Option (HashMap Ptr))
    → Quiet k k₁
    → elim m as (λ _. Run (Status × Kernel)) [ none ↦ ok (error, k₁) | some _ ↦ init_sleeping n k₁ ]
      ≡ ok (success, k')
    → Quiet k k'
blocked-Quiet n k k₁ k' none q e = cc
blocked-Quiet n k k₁ k' (some hm) q e = Quiet-then q (init_sleeping-Quiet n k₁ k' e)

init_blocked-Quiet : (n : ℕ) (k k' : Kernel) → init_blocked n k ≡ ok (success, k') → Quiet k k'
unfolding init_blocked
init_blocked-Quiet n k k' e =
    let (m, e₁, e₂) =
      >>=-eq-ok (HashMap.new {V = Ptr} 20 (answers k 0) (answers k 1) (λ i. answers k (2 + i))) _
        e in
    let k₁ : Kernel = record (took_many 22 k) { blocked = m } in
    blocked-Quiet n k k₁ k' m (Quiet-behind 22 k k₁ k₁ refl) e₂

pub init_scheduler-Quiet :
    (n : ℕ) (k k' : Kernel) → init_scheduler n k ≡ ok (success, k') → Quiet k k'
unfolding init_scheduler
init_scheduler-Quiet n k k' e = elim (Bool-cases (fresh k == null)) [
  | inl out ↦ cc (rw out at e)
  | inr got ↦
      let k₁ : Kernel = record (took k) { next_pid = 0; next_sync_id = 0; ready_q = some [] } in
      let one : Quiet k k₁ = record {
        curr = refl;
        transmitters = refl;
        stack_map = refl;
        taken = 1;
        mallocs = λ i. ap k.mallocs (omega arith);
      } in
      Quiet-then one (init_blocked-Quiet n k₁ k' (rw got at e))
]
