-- ===== src/Scheduler/Terminal.antt =====
-- `signalTransmitter`: the switch to the process that transmits.
use yallnix.Prelude.{
  ℕ, ◌≡◌, refl, ap, ◌∙◌, Option, none, some, ok, deref, Ptr, Status, error, success, >>=-eq-ok,
  deref-eq, get_elem?,
}
use yallnix.Fifo
use yallnix.Kernel.{Kernel, Resume, err, returned, switched, yields, Step, fresh, enq_ready}
use yallnix.Kernel.Switch.{context_switch}
use yallnix.Kernel.Current.{shared}
use yallnix.Scheduler.Rotation.{context_switch-Switched}
use yallnix.Scheduler.Tty.{signal_transmitter}

-- The process at the terminal runs, but stays at the terminal, and the caller is ready.
pub record Signalled (tty : ℕ) (k k' : Kernel) : Type 0 where
  pub transmitter : Ptr
  pub there : get_elem? k.transmitters tty ≡ some (some transmitter)
  pub stays : get_elem? k'.transmitters tty ≡ some (some transmitter)
  pub runs : k'.curr ≡ transmitter
  pub caller_ready : k'.ready_q ≡ (Fifo.enq (fresh k) k.curr k.ready_q).1
  pub queued : (Fifo.enq (fresh k) k.curr k.ready_q).0 ≡ success
  pub same : shared k' ≡ shared (enq_ready k.curr k).1

signal_to :
    (here : Resume) (tty : ℕ) (k k' : Kernel) (next : Option Ptr)
    → (Fifo.enq (fresh k) k.curr k.ready_q).0 ≡ success
    → get_elem? k.transmitters tty ≡ some next
    → elim next [
      | none ↦ yields (returned err) (enq_ready k.curr k).1
      | some p ↦ context_switch here (some k.curr) p (enq_ready k.curr k).1
    ]
      ≡ ok (switched, k')
    → Signalled tty k k'
signal_to here tty k k' none queued at e = cc
signal_to here tty k k' (some p) queued at e =
    let sw = context_switch-Switched here (some k.curr) p (enq_ready k.curr k).1 k' e in
    record {
      transmitter = p;
      there = at;
      stays = ap (λ s. get_elem? s.transmitters tty) sw.same ∙ at;
      runs = sw.runs;
      caller_ready = ap (λ s. s.ready_q) sw.same;
      queued = queued;
      same = sw.same;
    }

queued_then :
    (st : Status) (k₁ k' : Kernel) (rest : Step)
    → elim st [ error ↦ yields (returned err) k₁ | success ↦ rest ] ≡ ok (switched, k')
    → (st ≡ success) × (rest ≡ ok (switched, k'))
queued_then error k₁ k' rest e = cc
queued_then success k₁ k' rest e = (refl, e)

-- When `signalTransmitter` switches, the process that runs is the one at the terminal, which stays
-- there, and the caller is in the ready queue.
pub signal_transmitter-Signalled :
    (here : Resume) (tty : ℕ) (k k' : Kernel)
    → signal_transmitter here tty k ≡ ok (switched, k')
    → Signalled tty k k'
unfolding signal_transmitter
signal_transmitter-Signalled here tty k k' e =
    let (st, e₁) = queued_then (enq_ready k.curr k).0 (enq_ready k.curr k).1 k' _ e in
    let (next, e₂, e₃) = >>=-eq-ok (deref (get_elem? k.transmitters tty)) _ e₁ in
    signal_to here tty k k' next st (deref-eq (get_elem? k.transmitters tty) next e₂) e₃
