-- ===== src/Scheduler/Empty.antt =====
-- After `initScheduler` no process waits anywhere.
use yallnix.Prelude.{
  ℕ, zero, suc, ◌+◌, ◌≤◌, ◌≡◌, refl, sym, ap, ◌∙◌, Bool, true, false, Option, none, some, [], Run,
  ok, ◌≢◌, Ptr, null, ◌==◌, if◌then◌else◌, Status, error, success, arith, >>=-eq-ok, ok-injective,
  replicate, Bool-cases, inl, inr,
}
use yallnix.Set.Count.{to_nat}
use yallnix.HashMap.{HashMap}
use yallnix.HashMap
use yallnix.HashMap.Count.{count_map, new-count}
use yallnix.Kernel.{Kernel, fresh, took}
use yallnix.Scheduler.Creation.{took_many, answers}
use yallnix.Scheduler.Start.{
  init_queues, init_terminals, init_sleeping, init_blocked, init_scheduler,
}
use yallnix.Scheduler.Places.{here_is, count_q, count_qs, count_slots, places}
use yallnix.Scheduler.Runs.{Reach, Reach-Apart}

count_qs-replicate : (p : Ptr) (n : ℕ) → count_qs p (replicate n none) ≡ 0
count_qs-replicate p zero = refl
count_qs-replicate p (suc n) = omega (arith, count_qs-replicate p n)

init_queues-empty :
    (p : Ptr) (n : ℕ) (k : Kernel)
    → (count_qs p (init_queues n k).1 ≡ 0) × (count_qs p (init_queues n k).2 ≡ 0)
unfolding init_queues
init_queues-empty p zero k = (refl, refl)
init_queues-empty p (suc n) k =
    let rest = init_queues-empty p n (took_many 2 k) in
    let blank = count_qs-replicate p n in
    elim (Bool-cases (k.mallocs 0 == null)) [
      | inl e ↦ (ground (arith, e, blank), ground (arith, e, blank))
      | inr e ↦ elim (Bool-cases (k.mallocs 1 == null)) [
        | inl f ↦ (ground (arith, e, f, blank), ground (arith, e, f, blank))
        | inr f ↦ (ground (arith, e, f, rest), ground (arith, e, f, rest))
      ]
    ]

-- Making the queues moves nothing else.
record Kept (k k' : Kernel) : Type 0 where
  curr : k'.curr ≡ k.curr
  ready_q : k'.ready_q ≡ k.ready_q
  blocked : k'.blocked ≡ k.blocked
  sleeping : k'.sleeping ≡ k.sleeping
  transmitters : k'.transmitters ≡ k.transmitters

init_queues-Kept : (n : ℕ) (k : Kernel) → Kept k (init_queues n k).3
unfolding init_queues
init_queues-Kept zero k = record {
  curr = refl;
  ready_q = refl;
  blocked = refl;
  sleeping = refl;
  transmitters = refl;
}
init_queues-Kept (suc n) k =
    let r = init_queues-Kept n (took_many 2 k) in
    elim (Bool-cases (k.mallocs 0 == null)) [
      | inl e ↦ record {
        curr = ground (arith, e);
        ready_q = ground (arith, e);
        blocked = ground (arith, e);
        sleeping = ground (arith, e);
        transmitters = ground (arith, e);
      }
      | inr e ↦ elim (Bool-cases (k.mallocs 1 == null)) [
        | inl f ↦ record {
          curr = ground (arith, e, f);
          ready_q = ground (arith, e, f);
          blocked = ground (arith, e, f);
          sleeping = ground (arith, e, f);
          transmitters = ground (arith, e, f);
        }
        | inr f ↦ record {
          curr = ground (arith, e, f, r.curr);
          ready_q = ground (arith, e, f, r.ready_q);
          blocked = ground (arith, e, f, r.blocked);
          sleeping = ground (arith, e, f, r.sleeping);
          transmitters = ground (arith, e, f, r.transmitters);
        }
      ]
    ]

abbrev failed : Kernel → Run (Status × Kernel)
failed k = ok (error, k)

no_success : (k k' : Kernel) → failed k ≢ ok (success, k')
no_success k k' e = cc

module _ (p : Ptr) where
  init_terminals-places :
      (n : ℕ) (k : Kernel)
      → count_q p k.ready_q
          + count_map (here_is p) k.blocked
          + count_map (here_is p) k.sleeping
          + count_slots p k.transmitters
        ≡ 0
      → places p (init_terminals n k).1 ≡ to_nat (k.curr == p)
  unfolding init_terminals places
  init_terminals-places n k z =
      let r = init_queues-Kept n k in
      let (a, b) = init_queues-empty p n k in
      omega (
        arith,
        a,
        b,
        z,
        ap (λ c. to_nat (c == p)) r.curr,
        ap (count_q p) r.ready_q,
        ap (count_map (here_is p)) r.blocked,
        ap (count_map (here_is p)) r.sleeping,
        ap (count_slots p) r.transmitters,
      )

  init_sleeping-places :
      (n : ℕ) (k k' : Kernel)
      → count_q p k.ready_q + count_map (here_is p) k.blocked + count_slots p k.transmitters ≡ 0
      → init_sleeping n k ≡ ok (success, k')
      → places p k' ≡ to_nat (k.curr == p)
  unfolding init_sleeping
  init_sleeping-places n k k' z e =
      let (m, e₁, e₂) =
        >>=-eq-ok (HashMap.new {V = Ptr} 20 (answers k 0) (answers k 1) (λ i. answers k (2 + i))) _
          e in
      from m (new-count (here_is p) 20 (answers k 0) (answers k 1) (λ i. answers k (2 + i)) m e₁) e₂
    where
      with_map : Option (HashMap Ptr) → Kernel
      with_map m = record (took_many 22 k) { sleeping = m }

      from :
          (m : Option (HashMap Ptr))
          → count_map (here_is p) m ≡ 0
          → elim m as (λ _. Run (Status × Kernel)) [
            | none ↦ ok (error, with_map m)
            | some _ ↦ ok (init_terminals n (with_map m))
          ]
            ≡ ok (success, k')
          → places p k' ≡ to_nat (k.curr == p)
      from none c e = absurd (no_success _ k' e)
      from (some hm) c e =
          ap (λ (z : Status × Kernel). places p z.1) (sym (ok-injective _ _ e))
          ∙ init_terminals-places n (with_map (some hm)) (omega (arith, z, c))

  init_blocked-places :
      (n : ℕ) (k k' : Kernel)
      → count_q p k.ready_q + count_slots p k.transmitters ≡ 0
      → init_blocked n k ≡ ok (success, k')
      → places p k' ≡ to_nat (k.curr == p)
  unfolding init_blocked
  init_blocked-places n k k' z e =
      let (m, e₁, e₂) =
        >>=-eq-ok (HashMap.new {V = Ptr} 20 (answers k 0) (answers k 1) (λ i. answers k (2 + i))) _
          e in
      from m (new-count (here_is p) 20 (answers k 0) (answers k 1) (λ i. answers k (2 + i)) m e₁) e₂
    where
      with_map : Option (HashMap Ptr) → Kernel
      with_map m = record (took_many 22 k) { blocked = m }

      from :
          (m : Option (HashMap Ptr))
          → count_map (here_is p) m ≡ 0
          → elim m as (λ _. Run (Status × Kernel)) [
            | none ↦ ok (error, with_map m)
            | some _ ↦ init_sleeping n (with_map m)
          ]
            ≡ ok (success, k')
          → places p k' ≡ to_nat (k.curr == p)
      from none c e = absurd (no_success _ k' e)
      from (some hm) c e = init_sleeping-places n (with_map (some hm)) k' (omega (arith, z, c)) e

  pub init_scheduler-places :
      (n : ℕ) (k k' : Kernel)
      → count_slots p k.transmitters ≡ 0
      → init_scheduler n k ≡ ok (success, k')
      → places p k' ≡ to_nat (k.curr == p)
  unfolding init_scheduler
  init_scheduler-places n k k' z e = from (fresh k == null) (new_queue (fresh k == null)) e
    where
      new_queue : (b : Bool) → count_q p (if b then none else some []) ≡ 0
      new_queue true = refl
      new_queue false = refl

      start : Bool → Kernel
      start b = record (took k) {
        next_pid = 0;
        next_sync_id = 0;
        ready_q = if b then none else some [];
      }

      from :
          (b : Bool)
          → count_q p (if b then none else some []) ≡ 0
          → (if b then ok (error, start b) else init_blocked n (start b)) ≡ ok (success, k')
          → places p k' ≡ to_nat (k.curr == p)
      from true c e = absurd (no_success _ k' e)
      from false c e = init_blocked-places n (start false) k' (omega (arith, z)) e

-- After an `initScheduler` that succeeds, with no process in the static array of those that
-- transmit, no process is ever in two places, running, ready, blocked, asleep or at a terminal,
-- over every run of the calls that move processes (kickProcess, sleepProcess and blockProcess that
-- switch, unblockProcess that succeeds, forkProcess and the entry of a new process that is nowhere
-- yet) and of other code that moves none, in any order.
pub init_scheduler-Apart :
    (n : ℕ) (k k' k'' : Kernel)
    → ((p : Ptr) → count_slots p k.transmitters ≡ 0)
    → init_scheduler n k ≡ ok (success, k')
    → Reach k' k''
    → (p : Ptr) → places p k'' ≤ 1
init_scheduler-Apart n k k' k'' z e r p =
    Reach-Apart k' k'' r (λ q. one_place q (init_scheduler-places q n k k' (z q) e)) p
  where
    one_place : (q : Ptr) → places q k' ≡ to_nat (k.curr == q) → places q k' ≤ 1
    one_place q e = elim (Bool-cases (k.curr == q)) [
      | inl same ↦ ground (arith, e, same)
      | inr other ↦ ground (arith, e, other)
    ]
