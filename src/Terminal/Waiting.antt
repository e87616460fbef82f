-- ===== src/Terminal/Waiting.antt =====
-- waitTransmitter and unblockTransmitter: how a write waits for its terminal.
use yallnix.Prelude.{
  ℕ, ◌≡◌, refl, sym, ap, ◌∙◌, Option, none, some, List, [], ◌∷◌, ok, deref, Ptr, Status, error,
  get_elem?, set, arith, >>=-eq-ok, ok-injective, inl, inr, ◌⊎◌,
}
use yallnix.Kernel.{Kernel, Resume, err, Outcome, returned, switched, yields}
use yallnix.Fifo
use yallnix.Kernel.Switch.{switch_between, context_switch}
use yallnix.Kernel.Current.{Switched, switch_between-Switched}
use yallnix.Kernel.Saved.{Saved, switch_between-Saved}
use yallnix.Scheduler.{run_ready, ready_found}
use yallnix.Scheduler.Tty.{unblock_transmitter, wait_transmitter}

-- `run_ready` gives the processor up, or returns ERROR with no process ready.
pub record Paused (here : Resume) (k k' : Kernel) : Type 0 where
  pub saved : Saved here k.curr k'
  pub log : k'.transmitted ≡ k.transmitted

pub record Stuck (k k' : Kernel) : Type 0 where
  pub curr : k'.curr ≡ k.curr
  pub line_max : k'.line_max ≡ k.line_max
  pub log : k'.transmitted ≡ k.transmitted

ready_found-log :
    (found : Option Ptr) (k : Kernel) → (ready_found found k).1.transmitted ≡ k.transmitted
ready_found-log none k = refl
ready_found-log (some p) k = refl

run_ready_ends :
    (here : Resume) (k k' : Kernel) (o : Outcome) (q : Option (List Ptr))
    → k.ready_q ≡ q
    → run_ready here (some k.curr) k ≡ ok (o, k')
    → ((o ≡ switched) × Paused here k k') ⊎ ((o ≡ returned err) × Stuck k k')
unfolding run_ready
run_ready_ends here k k' o none eq e =
    let done : yields (returned err) (record k { ready_q = none }) ≡ ok (o, k') =
      rw (eq, Fifo.deq) at e in
    inr (
      ground (arith, done),
      record {
        curr = ground (arith, done);
        line_max = ground (arith, done);
        log = ground (arith, done);
      },
    )
run_ready_ends here k k' o (some []) eq e =
    let done : yields (returned err) (record k { ready_q = some [] }) ≡ ok (o, k') =
      rw (eq, Fifo.deq) at e in
    inr (
      ground (arith, done),
      record {
        curr = ground (arith, done);
        line_max = ground (arith, done);
        log = ground (arith, done);
      },
    )
run_ready_ends here k k' o (some (next ∷ rest)) eq e =
    let k₀ : Kernel = record k { ready_q = some rest } in
    let run : context_switch here (some k.curr) next k₀ ≡ ok (o, k') = rw eq at e in
    let (k₁, e₁, e₂) = >>=-eq-ok (switch_between here (some k.curr) next k₀) _ run in
    let same : k₁ ≡ k' = ground (arith, e₂) in
    let ended : switch_between here (some k.curr) next k₀ ≡ ok k' = e₁ ∙ ap ok same in
    let sw : Switched next k₀ k' = switch_between-Switched here (some k.curr) next k₀ k' ended in
    inl (
      ground (arith, e₂),
      record {
        saved = switch_between-Saved here k.curr next k₀ k' ended;
        log = ap (λ s. s.transmitted) sw.same;
      },
    )

pub wait_ends :
    (here : Resume) (tty : ℕ) (k k' : Kernel) (o : Outcome)
    → wait_transmitter here tty k ≡ ok (o, k')
    → ((o ≡ switched) × Paused here k k') ⊎ ((o ≡ returned err) × Stuck k k')
unfolding wait_transmitter
wait_ends here tty k k' o e =
    let (old, e₁, e₂) = >>=-eq-ok (deref (get_elem? k.transmitters tty)) _ e in
    let k₁ : Kernel = record k { transmitters = set k.transmitters tty (some k.curr) } in
    elim (run_ready_ends here k₁ k' o k.ready_q refl e₂) [
      | inl (sw, p) ↦ inl (sw, record { saved = p.saved; log = p.log })
      | inr (re, s) ↦ inr (re, record { curr = s.curr; line_max = s.line_max; log = s.log })
    ]

pub log_of-unblock :
    (tty : ℕ) (k k' : Kernel) (st : Status)
    → unblock_transmitter tty k ≡ ok (st, k')
    → k'.transmitted ≡ k.transmitted
unfolding unblock_transmitter
log_of-unblock tty k k' st e =
    let (old, e₁, e₂) = >>=-eq-ok (deref (get_elem? k.transmitters tty)) _ e in
    let (q, e₃, e₄) = >>=-eq-ok (deref (get_elem? k.transmitting_qs tty)) _ e₂ in from q e₄
  where
    k₁ : Kernel
    k₁ = record k { transmitters = set k.transmitters tty none }

    from :
        (q : Option (List Ptr))
        → ok (elim q as (λ _. Status × Kernel) [
          | none ↦ (error, k₁)
          | some q' ↦
              ready_found
                (Fifo.deq (some q')).0
                (record k₁ { transmitting_qs = set k.transmitting_qs tty (Fifo.deq (some q')).1 })
        ])
          ≡ ok (st, k')
        → k'.transmitted ≡ k.transmitted
    from none e = ap (λ (z : Status × Kernel). z.1.transmitted) (sym (ok-injective _ _ e))
    from (some q') e =
        ap (λ (z : Status × Kernel). z.1.transmitted) (sym (ok-injective _ _ e))
        ∙ ready_found-log (Fifo.deq (some q')).0 _
