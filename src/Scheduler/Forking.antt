-- ===== src/Scheduler/Forking.antt =====
-- `forkProcess` of Scheduler.c: the places of the parent and of the child behind it.
use yallnix.Prelude.{
  ◌+◌, ◌≡◌, refl, ap, ◌∙◌, Bool, true, false, some, ok, ◌>>=◌, Ptr, ◌==◌, Status, error, success,
  arith, >>=-eq-ok,
}
use yallnix.Set.Count.{to_nat}
use yallnix.Kernel.{Kernel, Resume, err, returned, switched, yields, fresh, enq_ready}
use yallnix.Kernel.Switch.{fork_to}
use yallnix.Kernel.Current.{Switched, fork_to-Switched}
use yallnix.Scheduler.{is_child, fork_process}
use yallnix.Scheduler.Places.{places, waits, count-enq}

module _ (p : Ptr) where
  forked :
      (here : Resume) (child : Ptr) (test : Bool) (st : Status) (k k₁ k' : Kernel)
      → elim test [
        | false ↦ yields (returned err) k
        | true ↦ elim st [
          | error ↦ yields (returned err) k₁
          | success ↦ do k₂ ← fork_to here child k₁; yields switched k₂
        ]
      ]
        ≡ ok (switched, k')
      → (st ≡ success) × Switched child k₁ k'
  forked here child false st k k₁ k' e = cc
  forked here child true error k k₁ k' e = cc
  forked here child true success k k₁ k' e =
      let (k₂, e₁, e₂) = >>=-eq-ok (fork_to here child k₁) _ e in
      let same : k₂ ≡ k' = ground (arith, e₂) in
      (refl, fork_to-Switched here child k₁ k' (e₁ ∙ ap ok same))

  -- A call of `forkProcess` that switches puts the child in one more place, since it runs, and
  -- leaves every other process in as many as before.
  pub fork_process-places :
      (here : Resume) (child : Ptr) (k k' : Kernel)
      → fork_process here (some child) k ≡ ok (switched, k')
      → places p k' ≡ places p k + to_nat (child == p)
  unfolding fork_process places
  fork_process-places here child k k' e =
      let (test, e₁, e₂) = >>=-eq-ok (is_child child k) _ e in
      let r : Status × Kernel = enq_ready k.curr k in
      let (st, sw) = forked here child test r.0 k r.1 k' e₂ in
      omega (
        arith,
        count-enq p (fresh k) k.curr k.ready_q st,
        ap (waits p) sw.same,
        ap (λ z. to_nat (z == p)) sw.runs,
      )
