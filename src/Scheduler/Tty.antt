-- ===== src/Scheduler/Tty.antt =====
-- The part of Scheduler.c for the terminals. A terminal that is not in the arrays is a fault.
pub mod Places
use yallnix.Prelude.{
  ℕ, Bool, true, false, Option, none, some, List, Run, ok, ◌>>=◌, deref, Ptr, Status, error,
  success, get_elem?, set,
}
use yallnix.Fifo
use yallnix.Kernel.{Kernel, Resume, err, Step, returned, yields, fresh, took, enq_ready}
use yallnix.Kernel.Switch.{context_switch}
use yallnix.Scheduler.{run_ready, ready_found}

unfoldable pub is_tty_transmit_available : ℕ → Kernel → Run Bool
is_tty_transmit_available tty k = do
  p ← deref (get_elem? k.transmitters tty)
  ok (elim p [ none ↦ true | some _ ↦ false ])

unfoldable pub block_transmitter : Resume → ℕ → Kernel → Step
block_transmitter here tty k = do
  q ← deref (get_elem? k.transmitting_qs tty)
  let r : Status × Option (List Ptr) = Fifo.enq (fresh k) k.curr q
  let k₁ : Kernel = record (took k) { transmitting_qs = set k.transmitting_qs tty r.1 }
  elim r.0 [ error ↦ yields (returned err) k₁ | success ↦ run_ready here (some k.curr) k₁ ]

unfoldable pub unblock_transmitter : ℕ → Kernel → Run (Status × Kernel)
unblock_transmitter tty k = do
  old ← deref (get_elem? k.transmitters tty)
  let k₁ : Kernel = record k { transmitters = set k.transmitters tty none }
  q ← deref (get_elem? k.transmitting_qs tty)
  ok (elim q [
    | none ↦ (error, k₁)
    | some q' ↦
        let r : Option Ptr × Option (List Ptr) = Fifo.deq (some q') in
        let k₂ : Kernel = record k₁ { transmitting_qs = set k.transmitting_qs tty r.1 } in
        ready_found r.0 k₂
  ])

unfoldable pub wait_transmitter : Resume → ℕ → Kernel → Step
wait_transmitter here tty k = do
  old ← deref (get_elem? k.transmitters tty)
  run_ready here (some k.curr) (record k { transmitters = set k.transmitters tty (some k.curr) })

unfoldable pub signal_transmitter : Resume → ℕ → Kernel → Step
signal_transmitter here tty k =
    let r : Status × Kernel = enq_ready k.curr k in
    elim r.0 [
      | error ↦ yields (returned err) r.1
      | success ↦ do
        next ← deref (get_elem? k.transmitters tty)
        elim next [
          | none ↦ yields (returned err) r.1
          | some p ↦ context_switch here (some k.curr) p r.1
        ]
    ]

unfoldable pub block_reader : Resume → ℕ → Kernel → Step
block_reader here tty k = do
  q ← deref (get_elem? k.reading_qs tty)
  let r : Status × Option (List Ptr) = Fifo.enq (fresh k) k.curr q
  let k₁ : Kernel = record (took k) { reading_qs = set k.reading_qs tty r.1 }
  elim r.0 [ error ↦ yields (returned err) k₁ | success ↦ run_ready here (some k.curr) k₁ ]

unfoldable pub unblock_reader : ℕ → Kernel → Run (Status × Kernel)
unblock_reader tty k = do
  q ← deref (get_elem? k.reading_qs tty)
  ok (elim q [
    | none ↦ (error, k)
    | some q' ↦
        let r : Option Ptr × Option (List Ptr) = Fifo.deq (some q') in
        let k₁ : Kernel = record k { reading_qs = set k.reading_qs tty r.1 } in ready_found r.0 k₁
  ])
