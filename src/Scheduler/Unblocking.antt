-- ===== src/Scheduler/Unblocking.antt =====
-- No call of `unblockProcess` of Scheduler.c, whatever it returns, puts a process in more places.
use yallnix.Prelude.{
  ℕ, ◌+◌, ◌≤◌, ◌≡◌, refl, ap, Option, none, some, List, ok, Ptr, null, ◌==◌, Status, arith,
  >>=-eq-ok, ok-injective, Bool-cases, inl, inr,
}
use yallnix.Prelude.Int.{pos}
use yallnix.Set.Count.{to_nat}
use yallnix.HashMap.{HashMap}
use yallnix.HashMap
use yallnix.HashMap.Count.{count_map, count-remove_map}
use yallnix.Fifo
use yallnix.Kernel.{Kernel, fresh}
use yallnix.Scheduler.{ready_found, unblock_process}
use yallnix.Scheduler.Places.{here_is, count_q, count_slot, count_slot-item, places, count-enq}

module _ (p : Ptr) where
  enq-le :
      (got x : Ptr) (q : Option (List Ptr))
      → count_q p (Fifo.enq got x q).1 ≤ count_q p q + to_nat (x == p)
  enq-le got x none = omega arith
  enq-le got x (some q) = elim (Bool-cases (got == null)) [
    | inl out ↦ rw out (omega arith)
    | inr room ↦ omega (arith, count-enq p got x (some q) (ground (arith, room)))
  ]

  found-le :
      (found : Option Ptr) (k : Kernel) (r : Status × Kernel)
      → ready_found found k ≡ r
      → places p r.1 ≤ places p k + count_slot p found
  unfolding places
  found-le none k r e = omega (arith, ap (λ (z : Status × Kernel). places p z.1) e)
  found-le (some x) k r e =
      omega (arith, enq-le (fresh k) x k.ready_q, ap (λ (z : Status × Kernel). places p z.1) e)

  unblock_from-le :
      (pid : ℕ) (k : Kernel) (m : Option (HashMap Ptr)) (r : Status × Kernel)
      → k.blocked ≡ m
      → unblock_process pid k ≡ ok r
      → places p r.1 ≤ places p k
  unfolding unblock_process places
  unblock_from-le pid k none r eq e = omega (
    arith,
    ap (λ (z : Status × Kernel). places p z.1) (ok-injective _ _ (rw eq at e)),
    ap (count_map (here_is p)) eq,
  )
  unblock_from-le pid k (some hm) r eq e =
      let (f, e₁, f₁) = >>=-eq-ok (HashMap.remove (pos pid) (some hm)) _ (rw eq at e) in
      omega (
        arith,
        found-le f.0 (record k { blocked = f.1 }) r (ok-injective _ _ f₁),
        count-remove_map (here_is p) (pos pid) (some hm) f.1 f.0 e₁,
        ap (count_map (here_is p)) eq,
        count_slot-item p f.0,
      )

  -- Whatever `unblockProcess` returns, no process is in more places.
  pub unblock_process-le :
      (pid : ℕ) (k : Kernel) (r : Status × Kernel)
      → unblock_process pid k ≡ ok r
      → places p r.1 ≤ places p k
  unblock_process-le pid k r e = unblock_from-le pid k k.blocked r refl e
