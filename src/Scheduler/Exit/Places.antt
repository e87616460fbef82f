-- ===== src/Scheduler/Exit/Places.antt =====
-- The places of processes over `exitProcess` of Scheduler.c.
use yallnix.Prelude.{
  ℕ, ◌≤◌, ◌≡◌, refl, sym, ap, ◌∙◌, Option, none, some, List, [], ◌∷◌, Run, ok, fault, ◌>>=◌, deref,
  Ptr, null, ◌==◌, Status, error, success, arith, >>=-eq-ok, ok-injective, Bool-cases, inl, inr,
  if◌then◌else◌,
}
use yallnix.Prelude.Int.{ℤ}
use yallnix.Set.{Set, iterate_loop}
use yallnix.HashMap.{HashMap}
use yallnix.HashMap
use yallnix.HashMap.Entries.{all_nodes, iterate-nodes}
use yallnix.Fifo
use yallnix.Kernel.{
  Kernel, Pcb, Zombie, starter, err, returned, switched, yields, fresh, took, set_pcb, Step,
}
use yallnix.Scheduler.{run_ready, unblock_process}
use yallnix.Scheduler.Places.{places, run_ready-places}
use yallnix.Scheduler.Exit.{
  remove_parent, delete_process, zombie_queue, leave_zombie, tell_parent, exit_process,
}
use yallnix.Scheduler.Unblocking.{unblock_process-le}

module _ (p : Ptr) where
  orphans-places :
      (l : Set Ptr) (s : Run Kernel) (k k' : Kernel)
      → ((z : Kernel) → s ≡ ok z → places p z ≡ places p k)
      → iterate_loop remove_parent l s ≡ ok k'
      → places p k' ≡ places p k
  unfolding iterate_loop remove_parent places
  orphans-places [] s k k' h e = h k' e
  orphans-places ((key, x) ∷ l) s k k' h e =
      orphans-places l (remove_parent key x s) k k'
        (λ z f.
          let (z₀, e₁, f₁) = >>=-eq-ok s _ f in
          let (pcb, e₂, f₂) = >>=-eq-ok (deref (z₀.pcbs x)) _ f₁ in
          ap (places p) (sym (ok-injective _ _ f₂)) ∙ h z₀ e₁)
        e

  delete_process-places :
      (x : Ptr) (k k' : Kernel) → delete_process x k ≡ ok k' → places p k' ≡ places p k
  unfolding delete_process places
  delete_process-places x k k' e =
      let (pcb, e₁, e₂) = >>=-eq-ok (deref (k.pcbs x)) _ e in
      ap (places p) (sym (ok-injective _ _ e₂))

  zombie-places : (par : Pcb) (k : Kernel) → places p (zombie_queue par k).1 ≡ places p k
  unfolding zombie_queue places
  zombie-places par k = from par.zombie_q
    where
      from :
          (q : Option (List Zombie))
          → places p
              (elim q as (λ _. Option (List Zombie) × Kernel) [
                | none ↦ (Fifo.new (fresh k), took k)
                | some q ↦ (some q, k)
              ]).1
            ≡ places p k
      from none = refl
      from (some q) = refl

  -- The zombie is in the queue of the parent, and the parent is unblocked.
  told-le :
      (st : Status) (pid : ℕ) (k₂ k' : Kernel)
      → elim st as (λ _. Run (Status × Kernel)) [
        | error ↦ ok (error, k₂)
        | success ↦ do r ← unblock_process pid k₂; ok (success, r.1)
      ]
        ≡ ok (success, k')
      → places p k' ≤ places p k₂
  told-le error pid k₂ k' e = cc
  told-le success pid k₂ k' e =
      let (r, e₁, f₁) = >>=-eq-ok (unblock_process pid k₂) _ e in
      omega (
        arith,
        unblock_process-le p pid k₂ r e₁,
        ap (λ (z : Status × Kernel). places p z.1) (ok-injective _ _ f₁),
      )

  queued-le :
      (made : Option (List Zombie)) (par : Pcb) (parent : Ptr) (zombie : Zombie) (k₁ k' : Kernel)
      → elim made as (λ _. Run (Status × Kernel)) [
        | none ↦ ok (error, k₁)
        | some _ ↦
            if fresh k₁ == null
            then fault
            else elim (Fifo.enq (fresh (took k₁)) zombie made).0 as (λ _. Run (Status × Kernel)) [
              | error ↦ ok (
                error,
                set_pcb parent
                    (record par { zombie_q = (Fifo.enq (fresh (took k₁)) zombie made).1 })
                    (took (took k₁)),
              )
              | success ↦ do
                r ← unblock_process par.pid (
                    set_pcb parent
                      (record par { zombie_q = (Fifo.enq (fresh (took k₁)) zombie made).1 })
                      (took (took k₁)))
                ok (success, r.1)
            ]
      ]
        ≡ ok (success, k')
      → places p k' ≤ places p k₁
  unfolding places
  queued-le none par parent zombie k₁ k' e = cc
  queued-le (some q) par parent zombie k₁ k' e = elim (Bool-cases (fresh k₁ == null)) [
    | inl out ↦ cc (rw out at e)
    | inr room ↦
        let r = Fifo.enq (fresh (took k₁)) zombie (some q) in
        told-le r.0 par.pid (set_pcb parent (record par { zombie_q = r.1 }) (took (took k₁))) k'
          (rw room at e)
  ]

  leave_zombie-le :
      (pcb : Pcb) (status : ℤ) (parent : Ptr) (k k' : Kernel)
      → leave_zombie pcb status parent k ≡ ok (success, k')
      → places p k' ≤ places p k
  unfolding leave_zombie
  leave_zombie-le pcb status parent k k' e =
      let (par, e₁, f₁) = >>=-eq-ok (deref (k.pcbs parent)) _ e in
      let made = zombie_queue par k in
      omega (
        arith,
        queued-le made.0 par parent (record { pid = pcb.pid; exit_status = status }) made.1 k' f₁,
        zombie-places par k,
      )

  tell_parent-le :
      (pcb : Pcb) (status : ℤ) (k k' : Kernel) (o : Option Ptr)
      → pcb.parent ≡ o
      → tell_parent pcb status k ≡ ok (success, k')
      → places p k' ≤ places p k
  unfolding tell_parent
  tell_parent-le pcb status k k' none eq e =
      let h : ok (success, k) ≡ ok (success, k') = rw eq at e in
      omega (arith, ap (λ (z : Status × Kernel). places p z.1) (ok-injective _ _ h))
  tell_parent-le pcb status k k' (some parent) eq e =
      leave_zombie-le pcb status parent k k' (rw eq at e)

  children-places :
      (m : Option (HashMap Ptr)) (k k' : Kernel)
      → HashMap.iterate (some remove_parent) m (ok k) ≡ ok k'
      → places p k' ≡ places p k
  unfolding HashMap.iterate
  children-places none k k' e = ap (places p) (sym (ok-injective _ _ e))
  children-places (some hm) k k' e =
      orphans-places (all_nodes hm.sets) (ok k) k k'
        (λ z f. ap (places p) (sym (ok-injective _ _ f)))
        (sym (iterate-nodes remove_parent hm (ok k)) ∙ e)

  ending-le :
      (st : Status) (x : Ptr) (k k' : Kernel)
      → elim st as (λ _. Step) [
        | error ↦ yields (returned err) k
        | success ↦ do
          me ← deref (k.pcbs x)
          k₂ ← HashMap.iterate (some remove_parent) me.children (ok k)
          k₃ ← delete_process x k₂
          run_ready starter none k₃
      ]
        ≡ ok (switched, k')
      → places p k' ≤ places p k
  ending-le error x k k' e = cc
  ending-le success x k k' e =
      let (me, e₁, f₁) = >>=-eq-ok (deref (k.pcbs x)) _ e in
      let (k₂, e₂, f₂) = >>=-eq-ok (HashMap.iterate (some remove_parent) me.children (ok k)) _ f₁ in
      let (k₃, e₃, f₃) = >>=-eq-ok (delete_process x k₂) _ f₂ in
      omega (
        arith,
        children-places me.children k k₂ e₂,
        delete_process-places x k₂ k₃ e₃,
        run_ready-places p starter none k₃ k' f₃,
      )

  told_ending-le :
      (pcb : Pcb) (status : ℤ) (st : Status) (x : Ptr) (k k₁ k' : Kernel)
      → tell_parent pcb status k ≡ ok (st, k₁)
      → elim st as (λ _. Step) [
        | error ↦ yields (returned err) k₁
        | success ↦ do
          me ← deref (k₁.pcbs x)
          k₂ ← HashMap.iterate (some remove_parent) me.children (ok k₁)
          k₃ ← delete_process x k₂
          run_ready starter none k₃
      ]
        ≡ ok (switched, k')
      → places p k' ≤ places p k
  told_ending-le pcb status error x k k₁ k' t e = cc
  told_ending-le pcb status success x k k₁ k' t e =
      omega (arith, tell_parent-le pcb status k k₁ pcb.parent refl t, ending-le success x k₁ k' e)

  -- No process is in more places when one has exited.
  pub exit_process-le :
      (status : ℤ) (k k' : Kernel)
      → exit_process status k ≡ ok (switched, k')
      → places p k' ≤ places p k
  unfolding exit_process
  exit_process-le status k k' e =
      let (pcb, e₁, f₁) = >>=-eq-ok (deref (k.pcbs k.curr)) _ e in
      let (r, e₂, f₂) = >>=-eq-ok (tell_parent pcb status k) _ f₁ in
      told_ending-le pcb status r.0 k.curr k r.1 k' e₂ f₂
