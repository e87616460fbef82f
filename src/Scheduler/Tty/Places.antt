-- ===== src/Scheduler/Tty/Places.antt =====
-- How the functions of Scheduler.c for the terminals move processes between their places.
use yallnix.Prelude.{
  ℕ, zero, suc, ◌+◌, ◌≤◌, ◌≡◌, ap, Option, none, some, List, [], ◌∷◌, ok, deref, Ptr, ◌==◌, Status,
  error, success, arith, >>=-eq-ok, ok-injective, deref-eq, get_elem?, set,
}
use yallnix.Set.Count.{to_nat}
use yallnix.Fifo
use yallnix.Kernel.{Kernel, Resume, switched, fresh, took}
use yallnix.Scheduler.{ready_found}
use yallnix.Scheduler.Places.{
  count_q, count_qs, count_slot, count_slots, waits, places, count-enq, count-deq, after_insert,
  run_ready-places, found_ready,
}
use yallnix.Scheduler.Terminal.{Signalled, signal_transmitter-Signalled}
use yallnix.Scheduler.Tty.{
  block_transmitter, unblock_transmitter, wait_transmitter, signal_transmitter, block_reader,
  unblock_reader,
}

module _ (p : Ptr) where
  count_qs-set :
      (qs : List (Option (List Ptr))) (i : ℕ) (q q' : Option (List Ptr))
      → get_elem? qs i ≡ some q
      → count_qs p (set qs i q') + count_q p q ≡ count_qs p qs + count_q p q'
  count_qs-set [] i q q' e = cc
  count_qs-set (x ∷ qs) zero q q' e = ground arith
  count_qs-set (x ∷ qs) (suc i) q q' e = omega (arith, count_qs-set qs i q q' e)

  count_slots-set :
      (ss : List (Option Ptr)) (i : ℕ) (s s' : Option Ptr)
      → get_elem? ss i ≡ some s
      → count_slots p (set ss i s') + count_slot p s ≡ count_slots p ss + count_slot p s'
  count_slots-set [] i s s' e = cc
  count_slots-set (x ∷ ss) zero s s' e = ground arith
  count_slots-set (x ∷ ss) (suc i) s s' e = omega (arith, count_slots-set ss i s s' e)

  -- A process that blocks as a reader stays in one place.
  pub block_reader-places :
      (here : Resume) (tty : ℕ) (k k' : Kernel)
      → block_reader here tty k ≡ ok (switched, k')
      → places p k' ≡ places p k
  unfolding block_reader places
  block_reader-places here tty k k' e =
      let (q, e₁, e₂) = >>=-eq-ok (deref (get_elem? k.reading_qs tty)) _ e in
      let r : Status × Option (List Ptr) = Fifo.enq (fresh k) k.curr q in
      let k₁ : Kernel = record (took k) { reading_qs = set k.reading_qs tty r.1 } in
      let (st, e₃) = after_insert p here r.0 k₁ k' e₂ in
      omega (
        arith,
        run_ready-places p here (some k.curr) k₁ k' e₃,
        count-enq p (fresh k) k.curr q st,
        count_qs-set k.reading_qs tty q r.1 (deref-eq _ q e₁),
      )

  pub block_transmitter-places :
      (here : Resume) (tty : ℕ) (k k' : Kernel)
      → block_transmitter here tty k ≡ ok (switched, k')
      → places p k' ≡ places p k
  unfolding block_transmitter places
  block_transmitter-places here tty k k' e =
      let (q, e₁, e₂) = >>=-eq-ok (deref (get_elem? k.transmitting_qs tty)) _ e in
      let r : Status × Option (List Ptr) = Fifo.enq (fresh k) k.curr q in
      let k₁ : Kernel = record (took k) { transmitting_qs = set k.transmitting_qs tty r.1 } in
      let (st, e₃) = after_insert p here r.0 k₁ k' e₂ in
      omega (
        arith,
        run_ready-places p here (some k.curr) k₁ k' e₃,
        count-enq p (fresh k) k.curr q st,
        count_qs-set k.transmitting_qs tty q r.1 (deref-eq _ q e₁),
      )

  reader_from :
      (tty : ℕ) (k k' : Kernel) (q : Option (List Ptr))
      → get_elem? k.reading_qs tty ≡ some q
      → ok (elim q as (λ _. Status × Kernel) [
        | none ↦ (error, k)
        | some q' ↦
            ready_found
              (Fifo.deq (some q')).0
              (record k { reading_qs = set k.reading_qs tty (Fifo.deq (some q')).1 })
      ])
        ≡ ok (success, k')
      → places p k' ≡ places p k
  unfolding places
  reader_from tty k k' none at e = cc
  reader_from tty k k' (some q) at e =
      let r = Fifo.deq (some q) in
      omega (
        arith,
        found_ready p r.0 (record k { reading_qs = set k.reading_qs tty r.1 }) k'
            (ok-injective _ _ e),
        count-deq p (some q),
        count_qs-set k.reading_qs tty (some q) r.1 at,
      )

  -- Unblocking the oldest reader, if there is one, leaves every process in one place.
  pub unblock_reader-places :
      (tty : ℕ) (k k' : Kernel) → unblock_reader tty k ≡ ok (success, k') → places p k' ≡ places p k
  unfolding unblock_reader
  unblock_reader-places tty k k' e =
      let (q, e₁, e₂) = >>=-eq-ok (deref (get_elem? k.reading_qs tty)) _ e in
      reader_from tty k k' q (deref-eq _ q e₁) e₂

  transmitter_from :
      (tty : ℕ) (k k' : Kernel) (q : Option (List Ptr))
      → get_elem? k.transmitting_qs tty ≡ some q
      → ok (elim q as (λ _. Status × Kernel) [
        | none ↦ (error, k)
        | some q' ↦
            ready_found
              (Fifo.deq (some q')).0
              (record k { transmitting_qs = set k.transmitting_qs tty (Fifo.deq (some q')).1 })
      ])
        ≡ ok (success, k')
      → places p k' ≡ places p k
  unfolding places
  transmitter_from tty k k' none at e = cc
  transmitter_from tty k k' (some q) at e =
      let r = Fifo.deq (some q) in
      omega (
        arith,
        found_ready p r.0 (record k { transmitting_qs = set k.transmitting_qs tty r.1 }) k'
            (ok-injective _ _ e),
        count-deq p (some q),
        count_qs-set k.transmitting_qs tty (some q) r.1 at,
      )

  -- The process at the terminal leaves that place.
  pub unblock_transmitter-places :
      (tty : ℕ) (old : Option Ptr) (k k' : Kernel)
      → get_elem? k.transmitters tty ≡ some old
      → unblock_transmitter tty k ≡ ok (success, k')
      → places p k' + count_slot p old ≡ places p k
  unfolding unblock_transmitter places
  unblock_transmitter-places tty old k k' at e =
      let (old', e₁, e₂) = >>=-eq-ok (deref (get_elem? k.transmitters tty)) _ e in
      let k₁ : Kernel = record k { transmitters = set k.transmitters tty none } in
      let (q, e₃, e₄) = >>=-eq-ok (deref (get_elem? k.transmitting_qs tty)) _ e₂ in
      omega (
        arith,
        transmitter_from tty k₁ k' q (deref-eq _ q e₃) e₄,
        count_slots-set k.transmitters tty old none at,
      )

  -- The process that waits at the terminal takes the place of the one that was there.
  pub wait_transmitter-places :
      (here : Resume) (tty : ℕ) (old : Option Ptr) (k k' : Kernel)
      → get_elem? k.transmitters tty ≡ some old
      → wait_transmitter here tty k ≡ ok (switched, k')
      → places p k' + count_slot p old ≡ places p k
  unfolding wait_transmitter places
  wait_transmitter-places here tty old k k' at e =
      let (old', e₁, e₂) = >>=-eq-ok (deref (get_elem? k.transmitters tty)) _ e in
      let k₁ : Kernel = record k { transmitters = set k.transmitters tty (some k.curr) } in
      omega (
        arith,
        run_ready-places p here (some k.curr) k₁ k' e₂,
        count_slots-set k.transmitters tty old (some k.curr) at,
      )

  Signalled-places :
      (tty : ℕ) (k k' : Kernel) (s : Signalled tty k k')
      → places p k' ≡ places p k + to_nat (s.transmitter == p)
  unfolding places
  Signalled-places tty k k' s = omega (
    arith,
    ap (λ c. to_nat (c == p)) s.runs,
    ap (waits p) s.same,
    count-enq p (fresh k) k.curr k.ready_q s.queued,
  )

  -- The process at the terminal runs, and clears its place there.
  pub signal-unblock-places :
      (here : Resume) (tty : ℕ) (k k₁ k' : Kernel)
      → signal_transmitter here tty k ≡ ok (switched, k₁)
      → unblock_transmitter tty k₁ ≡ ok (success, k')
      → places p k' ≡ places p k
  signal-unblock-places here tty k k₁ k' e f =
      let s = signal_transmitter-Signalled here tty k k₁ e in
      omega (
        arith,
        Signalled-places tty k k₁ s,
        unblock_transmitter-places tty (some s.transmitter) k₁ k' s.stays f,
      )

  -- The process at the terminal runs, and waits there again.
  pub signal-wait-places :
      (here again : Resume) (tty : ℕ) (k k₁ k' : Kernel)
      → signal_transmitter here tty k ≡ ok (switched, k₁)
      → wait_transmitter again tty k₁ ≡ ok (switched, k')
      → places p k' ≡ places p k
  signal-wait-places here again tty k k₁ k' e f =
      let s = signal_transmitter-Signalled here tty k k₁ e in
      omega (
        arith,
        Signalled-places tty k k₁ s,
        wait_transmitter-places again tty (some s.transmitter) k₁ k' s.stays f,
      )

  -- A terminal that is not there is a fault, so the place of one that is waited at is known.
  pub wait_transmitter-le :
      (here : Resume) (tty : ℕ) (k k' : Kernel)
      → wait_transmitter here tty k ≡ ok (switched, k')
      → places p k' ≤ places p k
  unfolding wait_transmitter
  wait_transmitter-le here tty k k' e =
      let (old, e₁, e₂) = >>=-eq-ok (deref (get_elem? k.transmitters tty)) _ e in
      omega (arith, wait_transmitter-places here tty old k k' (deref-eq _ old e₁) e)

  pub unblock_transmitter-le :
      (tty : ℕ) (k k' : Kernel)
      → unblock_transmitter tty k ≡ ok (success, k')
      → places p k' ≤ places p k
  unfolding unblock_transmitter
  unblock_transmitter-le tty k k' e =
      let (old, e₁, e₂) = >>=-eq-ok (deref (get_elem? k.transmitters tty)) _ e in
      omega (arith, unblock_transmitter-places tty old k k' (deref-eq _ old e₁) e)
