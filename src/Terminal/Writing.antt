-- ===== src/Terminal/Writing.antt =====
-- KernelTtyWrite: the bytes that are handed to TtyTransmit.
use yallnix.Prelude.{
  ℕ, zero, suc, ◌<◌, ◌≤◌, ◌≡◌, sym, ap, ◌∙◌, some, List, [], ◌∷◌, ◌++◌, append_assoc, append-nil,
  length-take, ok, ◌==◌, if◌then◌else◌, length, take, drop, arith, >>=-eq-ok, subst,
  take-append-drop, length-drop, inl, inr, ◌⊎◌,
}
use yallnix.Kernel.{Kernel, Pcb, tty_batch, val, Outcome, returned, switched, yields}
use yallnix.Scheduler.Tty.{unblock_transmitter, wait_transmitter}
use yallnix.Terminal.{transmit_loop}
use yallnix.Terminal.Waiting.{Stuck, wait_ends, log_of-unblock}

-- The bytes that have gone to a terminal, oldest first.
abbrev pub sent : ℕ → List (ℕ × List ℕ) → List ℕ
sent tty [] = []
sent tty ((t, batch) ∷ log) = if t == tty then sent tty log ++ batch else sent tty log

-- Every batch fits into a line of the terminal.
abbrev pub Bounded : ℕ → List (ℕ × List ℕ) → Type 0
Bounded line_max [] = Unit {0}
Bounded line_max ((t, batch) ∷ log) = (length batch ≤ line_max) × Bounded line_max log

-- How a write stands when the processor goes to another process: what is sent and what the saved context
-- still holds are all the bytes.
pub record Sending (tty len : ℕ) (bytes : List ℕ) (k k' : Kernel) : Type 0 where
  pub rest : List ℕ
  pub pcb : Pcb
  pub alive : k'.pcbs k.curr ≡ some pcb
  pub context : pcb.kctxt ≡ some (tty_batch tty rest len)
  pub all_bytes : sent tty k'.transmitted ++ rest ≡ sent tty k.transmitted ++ bytes
  pub fewer : length rest < length bytes
  pub bounded : Bounded k.line_max k.transmitted → Bounded k.line_max k'.transmitted

-- How a write stands when it returns to its caller.
pub record Sent (tty : ℕ) (bytes : List ℕ) (k k' : Kernel) : Type 0 where
  pub all_bytes : sent tty k'.transmitted ≡ sent tty k.transmitted ++ bytes
  pub bounded : Bounded k.line_max k.transmitted → Bounded k.line_max k'.transmitted

-- The last batch of a log is the oldest.
sent-cons :
    (tty : ℕ) (batch : List ℕ) (log : List (ℕ × List ℕ))
    → sent tty ((tty, batch) ∷ log) ≡ sent tty log ++ batch
sent-cons tty batch log = ground arith

-- A batch and what is left of the bytes behind it.
batch_moves :
    (tty n : ℕ) (bytes : List ℕ) (log : List (ℕ × List ℕ))
    → sent tty ((tty, take n bytes) ∷ log) ++ drop n bytes ≡ sent tty log ++ bytes
batch_moves tty n bytes log =
    ap (λ z. z ++ drop n bytes) (sent-cons tty (take n bytes) log)
    ∙ append_assoc (sent tty log) (take n bytes) (drop n bytes)
    ∙ ap (λ z. sent tty log ++ z) (take-append-drop n bytes)

abbrev pub Ends : ℕ → ℕ → List ℕ → Kernel → Outcome → Kernel → Type 0
Ends tty len bytes k o k' =
    ((o ≡ switched) × Sending tty len bytes k k') ⊎ ((o ≡ returned (val len)) × Sent tty bytes k k')

-- A batch that is handed over.
hand : ℕ → List ℕ → Kernel → Kernel
hand tty bytes k = record k { transmitted = (tty, take k.line_max bytes) ∷ k.transmitted }

hand-all_bytes :
    (tty : ℕ) (bytes : List ℕ) (k k₂ : Kernel)
    → k₂.transmitted ≡ (hand tty bytes k).transmitted
    → sent tty k₂.transmitted ++ drop k.line_max bytes ≡ sent tty k.transmitted ++ bytes
unfolding hand
hand-all_bytes tty bytes k k₂ log =
    ap (λ z. sent tty z ++ drop k.line_max bytes) log
    ∙ batch_moves tty k.line_max bytes k.transmitted

hand-Bounded :
    (tty : ℕ) (bytes : List ℕ) (k k₂ : Kernel)
    → k₂.transmitted ≡ (hand tty bytes k).transmitted
    → Bounded k.line_max k.transmitted
    → Bounded k.line_max k₂.transmitted
unfolding hand
hand-Bounded tty bytes k k₂ log b =
    subst (Bounded k.line_max) (sym log) (omega (arith, length-take k.line_max bytes), b)

-- The rest of the bytes, from the state behind a batch on.
Ends-hand :
    (tty len : ℕ) (bytes : List ℕ) (k k₂ k' : Kernel) (o : Outcome)
    → Stuck (hand tty bytes k) k₂
    → Ends tty len (drop k.line_max bytes) k₂ o k'
    → Ends tty len bytes k o k'
unfolding hand
Ends-hand tty len bytes k k₂ k' o s (inl (sw, r)) = inl (
  sw,
  record {
    rest = r.rest;
    pcb = r.pcb;
    alive = ap k'.pcbs (sym s.curr) ∙ r.alive;
    context = r.context;
    all_bytes = r.all_bytes ∙ hand-all_bytes tty bytes k k₂ s.log;
    fewer = omega (arith, r.fewer, length-drop k.line_max bytes);
    bounded = λ b.
        subst (λ m. Bounded m k'.transmitted) s.line_max
          (r.bounded (
            subst (λ m. Bounded m k₂.transmitted) (sym s.line_max)
              (hand-Bounded tty bytes k k₂ s.log b)));
  },
)
Ends-hand tty len bytes k k₂ k' o s (inr (re, r)) = inr (
  re,
  record {
    all_bytes = r.all_bytes ∙ hand-all_bytes tty bytes k k₂ s.log;
    bounded = λ b.
        subst (λ m. Bounded m k'.transmitted) s.line_max
          (r.bounded (
            subst (λ m. Bounded m k₂.transmitted) (sym s.line_max)
              (hand-Bounded tty bytes k k₂ s.log b)));
  },
)

-- The loop of `KernelTtyWrite` that hands bytes to a terminal, with enough fuel and a positive
-- limit for a line, ends in one of two ways if it does not fault: it gives the processor up, and
-- the bytes handed over and those that the saved context still holds are all of them in order,
-- with fewer left than before; or it returns the length, with all bytes handed over in order.
-- Batches that fit into a line before do so after it.
pub transmit_loop-Ends :
    (f tty len : ℕ) (bytes : List ℕ) (k k' : Kernel) (o : Outcome)
    → length bytes ≤ f
    → 0 < k.line_max
    → transmit_loop f tty bytes len k ≡ ok (o, k')
    → Ends tty len bytes k o k'
unfolding transmit_loop hand
transmit_loop-Ends f tty len [] k k' o le p e =
    let ((st, k₁), e₁, e₂) = >>=-eq-ok (unblock_transmitter tty k) _ e in
    let same : k₁ ≡ k' = ground (arith, e₂) in
    let log : k'.transmitted ≡ k.transmitted =
      ap (λ z. z.transmitted) (sym same) ∙ log_of-unblock tty k k₁ st e₁ in
    inr (
      ground (arith, e₂),
      record {
        all_bytes = ap (sent tty) log ∙ sym (append-nil (sent tty k.transmitted));
        bounded = subst (Bounded k.line_max) (sym log);
      },
    )
transmit_loop-Ends zero tty len (b ∷ bs) k k' o le p e = absurd (omega arith)
transmit_loop-Ends (suc f) tty len (b ∷ bs) k k' o le p e =
    let rest : List ℕ = drop k.line_max (b ∷ bs) in
    let ((o₁, k₂), e₁, e₂) =
      >>=-eq-ok (wait_transmitter (tty_batch tty rest len) tty (hand tty (b ∷ bs) k)) _ e in
    let shorter : length rest < length (b ∷ bs) = omega (arith, length-drop k.line_max (b ∷ bs)) in
    elim (wait_ends (tty_batch tty rest len) tty (hand tty (b ∷ bs) k) k₂ o₁ e₁) [
      | inl (sw, w) ↦
          let ended : yields switched k₂ ≡ ok (o, k') = rw sw at e₂ in
          let same : k₂ ≡ k' = ground (arith, ended) in
          inl (
            ground (arith, ended),
            record {
              rest = rest;
              pcb = w.saved.pcb;
              alive = ap (λ z. z.pcbs k.curr) (sym same) ∙ w.saved.alive;
              context = w.saved.context;
              all_bytes =
                  hand-all_bytes tty (b ∷ bs) k k' (ap (λ z. z.transmitted) (sym same) ∙ w.log);
              fewer = shorter;
              bounded = hand-Bounded tty (b ∷ bs) k k' (ap (λ z. z.transmitted) (sym same) ∙ w.log);
            },
          )
      | inr (re, s) ↦
          let goes : transmit_loop f tty rest len k₂ ≡ ok (o, k') = rw re at e₂ in
          Ends-hand tty len (b ∷ bs) k k₂ k' o s (
            transmit_loop-Ends f tty len rest k₂ k' o (omega arith) (omega (arith, s.line_max))
              goes)
    ]
