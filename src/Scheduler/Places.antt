-- ===== src/Scheduler/Places.antt =====
-- Where a process is: running, in a queue, blocked, asleep, or at a terminal, and how the functions of
-- Scheduler.c move processes between these places.
use yallnix.Prelude.{
  ℕ, ◌+◌, ◌≡◌, refl, ap, Bool, Option, none, some, List, [], ◌∷◌, ◌++◌, ok, deref, Ptr, null, not,
  ◌==◌, Status, error, success, arith, >>=-eq-ok, ok-injective, Bool-cases, inl, inr,
}
use yallnix.Prelude.Int.{ℤ, pos, is_nonpos}
use yallnix.HashMap.{HashMap}
use yallnix.HashMap
use yallnix.HashMap.Count.{count_map, count-insert_map, count-remove_map}
use yallnix.Set.Count.{to_nat, count_item, added}
use yallnix.Fifo
use yallnix.Kernel.{
  Kernel, Resume, err, returned, switched, yields, fresh, took, set_pcb, enq_ready,
}
use yallnix.Kernel.Current.{Shared, shared}
use yallnix.Scheduler.Rotation.{Ran, run_ready-Ran}
use yallnix.Scheduler.{
  run_ready, ready_found, sleep_process, kick_process, block_process, unblock_process,
}

module _ (p : Ptr) where
  abbrev pub here_is : Ptr → Bool
  here_is x = x == p

  abbrev pub count_list : List Ptr → ℕ
  count_list [] = 0
  count_list (x ∷ q) = to_nat (x == p) + count_list q

  abbrev pub count_q : Option (List Ptr) → ℕ
  count_q none = 0
  count_q (some q) = count_list q

  abbrev pub count_slot : Option Ptr → ℕ
  count_slot none = 0
  count_slot (some x) = to_nat (x == p)

  pub count_slot-item : (s : Option Ptr) → count_item here_is s ≡ count_slot s
  count_slot-item none = refl
  count_slot-item (some x) = refl

  abbrev pub count_qs : List (Option (List Ptr)) → ℕ
  count_qs [] = 0
  count_qs (q ∷ qs) = count_q q + count_qs qs

  abbrev pub count_slots : List (Option Ptr) → ℕ
  count_slots [] = 0
  count_slots (s ∷ ss) = count_slot s + count_slots ss

  -- How often the process waits somewhere.
  abbrev pub waits : Shared → ℕ
  waits s =
      count_q s.ready_q
      + count_map here_is s.blocked
      + count_map here_is s.sleeping
      + count_qs s.transmitting_qs
      + count_qs s.reading_qs
      + count_slots s.transmitters

  unfoldable pub places : Kernel → ℕ
  places k = to_nat (k.curr == p) + waits (shared k)

  pub count-enq :
      (got x : Ptr) (q : Option (List Ptr))
      → (Fifo.enq got x q).0 ≡ success
      → count_q (Fifo.enq got x q).1 ≡ to_nat (x == p) + count_q q
  count-enq got x none e = cc
  count-enq got x (some q) e = ground (arith, count-append q)
    where
      count-append : (q : List Ptr) → count_list (q ++ x ∷ []) ≡ to_nat (x == p) + count_list q
      count-append [] = refl
      count-append (y ∷ q) = omega (arith, count-append q)

  pub count-deq :
      (q : Option (List Ptr)) → count_slot (Fifo.deq q).0 + count_q (Fifo.deq q).1 ≡ count_q q
  count-deq none = omega arith
  count-deq (some []) = omega arith
  count-deq (some (x ∷ q)) = omega arith

  -- The process that was running is out of all places; the oldest ready one runs.
  pub run_ready-places :
      (go : Resume) (x : Option Ptr) (k k' : Kernel)
      → run_ready go x k ≡ ok (switched, k')
      → places k' + to_nat (k.curr == p) ≡ places k
  unfolding places
  run_ready-places go x k k' e =
      let r : Ran k k' = run_ready-Ran go x k k' e in
      omega (
        arith,
        ap waits r.switched_to.same,
        ap (count_q) r.ready,
        ap (λ z. to_nat (z == p)) r.switched_to.runs,
      )

  pub after_insert :
      (here : Resume) (st : Status) (k₁ k' : Kernel)
      → elim st [ error ↦ yields (returned err) k₁ | success ↦ run_ready here (some k₁.curr) k₁ ]
        ≡ ok (switched, k')
      → (st ≡ success) × (run_ready here (some k₁.curr) k₁ ≡ ok (switched, k'))
  after_insert here error k₁ k' e = cc
  after_insert here success k₁ k' e = (refl, e)

  -- A call of `blockProcess` that switches leaves every process in as many places as before.
  pub block_process-places :
      (here : Resume) (k k' : Kernel)
      → block_process here k ≡ ok (switched, k')
      → places k' ≡ places k
  unfolding block_process places
  block_process-places here k k' e =
      let (pcb, e₁, f₁) = >>=-eq-ok (deref (k.pcbs k.curr)) _ e in
      let (r, e₂, f₂) =
        >>=-eq-ok (HashMap.insert (not (fresh k == null)) (pos pcb.pid) (some k.curr) k.blocked) _
          f₁ in
      let k₁ : Kernel = record (took k) { blocked = r.1 } in
      let (st, e₃) = after_insert here r.0 k₁ k' f₂ in
      omega (
        arith,
        run_ready-places here (some k.curr) k₁ k' e₃,
        count-insert_map here_is _ (pos pcb.pid) k.curr k.blocked r.1 r.0 e₂,
        ap (λ s. added here_is (some k.curr) s) st,
      )

  asleep-places :
      (here : Resume) (pid : ℤ) (k k' : Kernel) (r : Status × Option (HashMap Ptr))
      → HashMap.insert (not (fresh k == null)) pid (some k.curr) k.sleeping ≡ ok r
      → elim r.0 [
        | error ↦ yields (returned err) (record (took k) { sleeping = r.1 })
        | success ↦ run_ready here (some k.curr) (record (took k) { sleeping = r.1 })
      ]
        ≡ ok (switched, k')
      → places k' ≡ places k
  unfolding places
  asleep-places here pid k k' r e₂ f₂ =
      let k₁ : Kernel = record (took k) { sleeping = r.1 } in
      let (st, e₃) = after_insert here r.0 k₁ k' f₂ in
      omega (
        arith,
        run_ready-places here (some k.curr) k₁ k' e₃,
        count-insert_map here_is _ pid k.curr k.sleeping r.1 r.0 e₂,
        ap (λ s. added here_is (some k.curr) s) st,
      )

  -- A call that puts the running process to sleep, and switches, leaves every process in as many
  -- places as before.
  pub sleep_process-places :
      (here : Resume) (ticks : ℤ) (k k' : Kernel)
      → sleep_process here ticks k ≡ ok (switched, k')
      → places k' ≡ places k
  unfolding sleep_process places
  sleep_process-places here ticks k k' e = elim (Bool-cases (is_nonpos ticks)) [
    | inl now ↦ cc (rw now at e)
    | inr later ↦
        let (pcb, e₁, f₁) = >>=-eq-ok (deref (k.pcbs k.curr)) _ (rw later at e) in
        let k₀ : Kernel = set_pcb k.curr (record pcb { ticks = ticks }) k in
        let (r, e₂, f₂) =
          >>=-eq-ok (HashMap.insert (not (fresh k == null)) (pos pcb.pid) (some k.curr) k.sleeping)
            _ f₁ in
        asleep-places here (pos pcb.pid) k₀ k' r e₂ f₂
  ]

  kick_from :
      (here : Resume) (k k' : Kernel) (q : Option (List Ptr))
      → k.ready_q ≡ q
      → kick_process here k ≡ ok (switched, k')
      → places k' ≡ places k
  unfolding kick_process places
  kick_from here k k' none eq e = cc e
  kick_from here k k' (some []) eq e = cc e
  kick_from here k k' (some (x ∷ q)) eq e =
      let r : Status × Option (List Ptr) = Fifo.enq (fresh k) k.curr (some (x ∷ q)) in
      let k₁ : Kernel = record (took k) { ready_q = r.1 } in
      let (st, e₁) = after_insert here r.0 k₁ k' (rw eq at e) in
      omega (
        arith,
        run_ready-places here (some k.curr) k₁ k' e₁,
        count-enq (fresh k) k.curr (some (x ∷ q)) st,
        ap count_q eq,
      )

  -- A call of `kickProcess` that switches leaves every process in as many places as before.
  pub kick_process-places :
      (here : Resume) (k k' : Kernel)
      → kick_process here k ≡ ok (switched, k')
      → places k' ≡ places k
  kick_process-places here k k' e = kick_from here k k' k.ready_q refl e

  -- A successful move to the ready queue.
  pub enq_ready-places :
      (x : Ptr) (k k' : Kernel)
      → enq_ready x k ≡ (success, k')
      → places k' ≡ places k + to_nat (x == p)
  unfolding places
  enq_ready-places x k k' e = omega (
    arith,
    count-enq (fresh k) x k.ready_q (ap (λ (z : Status × Kernel). z.0) e),
    ap (λ (z : Status × Kernel). places z.1) e,
  )

  pub found_ready :
      (found : Option Ptr) (k₁ k' : Kernel)
      → ready_found found k₁ ≡ (success, k')
      → places k' ≡ places k₁ + count_slot found
  found_ready none k₁ k' e = omega (arith, ap (λ (z : Status × Kernel). places z.1) e)
  found_ready (some x) k₁ k' e = enq_ready-places x k₁ k' e

  unblock_from :
      (pid : ℕ) (k k' : Kernel) (m : Option (HashMap Ptr))
      → k.blocked ≡ m
      → unblock_process pid k ≡ ok (success, k')
      → places k' ≡ places k
  unfolding unblock_process places
  unblock_from pid k k' none eq e = cc e
  unblock_from pid k k' (some hm) eq e =
      let (r, e₁, f₁) = >>=-eq-ok (HashMap.remove (pos pid) (some hm)) _ (rw eq at e) in
      omega (
        arith,
        found_ready r.0 (record k { blocked = r.1 }) k' (ok-injective _ _ f₁),
        count-remove_map here_is (pos pid) (some hm) r.1 r.0 e₁,
        ap (count_map here_is) eq,
        count_slot-item r.0,
      )

  -- An `unblockProcess` that succeeds leaves every process in as many places as before.
  pub unblock_process-places :
      (pid : ℕ) (k k' : Kernel) → unblock_process pid k ≡ ok (success, k') → places k' ≡ places k
  unblock_process-places pid k k' e = unblock_from pid k k' k.blocked refl e
