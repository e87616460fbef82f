-- ===== src/Scheduler/Runs.antt =====
-- Runs of the scheduler: sequences of the calls that move processes, in any order.
use yallnix.Prelude.{
  ◌∙◌, ℕ, ◌+◌, ◌≤◌, ◌≡◌, sym, ap, some, ok, Ptr, ◌==◌, Status, success, List, ok-injective, arith,
  Bool-cases, inl, inr,
}
use yallnix.Prelude.Int.{ℤ}
use yallnix.Set.Count.{to_nat}
use yallnix.Kernel.{Kernel, Resume, switched, enq_ready}
use yallnix.HashMap.{HashMap}
use yallnix.Scheduler.{kick_process, sleep_process, block_process, unblock_process, fork_process}
use yallnix.Scheduler.Tty.{
  block_transmitter, unblock_transmitter, wait_transmitter, signal_transmitter, block_reader,
  unblock_reader,
}
use yallnix.Scheduler.Exit.{exit_process}
use yallnix.Scheduler.Clock.{tick_down_sleepers}
use yallnix.Scheduler.Places.{
  places, block_process-places, sleep_process-places, kick_process-places, enq_ready-places,
}
use yallnix.Scheduler.Forking.{fork_process-places}
use yallnix.Scheduler.Tty.Places.{
  block_reader-places, block_transmitter-places, unblock_reader-places, unblock_transmitter-le,
  wait_transmitter-le, signal-unblock-places, signal-wait-places,
}
use yallnix.Scheduler.Unblocking.{unblock_process-le}
use yallnix.Scheduler.Exit.Places.{exit_process-le}
use yallnix.Scheduler.Clock.Waking.{Sleepers, tick_down_sleepers-Ticked}

-- A step of other code moves no process.
pub record Keeps (k k' : Kernel) : Type 0 where
  pub curr : k'.curr ≡ k.curr
  pub ready_q : k'.ready_q ≡ k.ready_q
  pub blocked : k'.blocked ≡ k.blocked
  pub sleeping : k'.sleeping ≡ k.sleeping
  pub transmitters : k'.transmitters ≡ k.transmitters
  pub transmitting_qs : k'.transmitting_qs ≡ k.transmitting_qs
  pub reading_qs : k'.reading_qs ≡ k.reading_qs

-- One step: a call of the scheduler that switches or wakes, a fork of a child that is nowhere yet, the
-- entry of a new process, a tick of the clock over a valid map of sleepers, or other code. After
-- signalTransmitter the process that it starts is both running and at its terminal, and it calls
-- unblockTransmitter or waitTransmitter at once: the two calls are one step.
pub data Move : Kernel → Kernel → Type 0 where
  kicks : (here : Resume) (k k' : Kernel) → kick_process here k ≡ ok (switched, k') → Move k k'
  sleeps :
      (here : Resume) (ticks : ℤ) (k k' : Kernel)
      → sleep_process here ticks k ≡ ok (switched, k')
      → Move k k'
  blocks : (here : Resume) (k k' : Kernel) → block_process here k ≡ ok (switched, k') → Move k k'
  wakes : (pid : ℕ) (st : Status) (k k' : Kernel) → unblock_process pid k ≡ ok (st, k') → Move k k'
  exits : (status : ℤ) (k k' : Kernel) → exit_process status k ≡ ok (switched, k') → Move k k'
  clock :
      (hm : HashMap Ptr) (q : List Ptr) (k k' : Kernel)
      → Sleepers hm q k
      → tick_down_sleepers k ≡ ok (success, k')
      → Move k k'
  reads :
      (here : Resume) (tty : ℕ) (k k' : Kernel)
      → block_reader here tty k ≡ ok (switched, k')
      → Move k k'
  lines : (tty : ℕ) (k k' : Kernel) → unblock_reader tty k ≡ ok (success, k') → Move k k'
  queues :
      (here : Resume) (tty : ℕ) (k k' : Kernel)
      → block_transmitter here tty k ≡ ok (switched, k')
      → Move k k'
  frees : (tty : ℕ) (k k' : Kernel) → unblock_transmitter tty k ≡ ok (success, k') → Move k k'
  transmits :
      (here : Resume) (tty : ℕ) (k k' : Kernel)
      → wait_transmitter here tty k ≡ ok (switched, k')
      → Move k k'
  signals_last :
      (here : Resume) (tty : ℕ) (k k₁ k' : Kernel)
      → signal_transmitter here tty k ≡ ok (switched, k₁)
      → unblock_transmitter tty k₁ ≡ ok (success, k')
      → Move k k'
  signals_more :
      (here again : Resume) (tty : ℕ) (k k₁ k' : Kernel)
      → signal_transmitter here tty k ≡ ok (switched, k₁)
      → wait_transmitter again tty k₁ ≡ ok (switched, k')
      → Move k k'
  forks :
      (here : Resume) (child : Ptr) (k k' : Kernel)
      → places child k ≡ 0
      → fork_process here (some child) k ≡ ok (switched, k')
      → Move k k'
  admits :
      (new : Ptr) (k k' : Kernel) → places new k ≡ 0 → enq_ready new k ≡ (success, k') → Move k k'
  others : (k k' : Kernel) → Keeps k k' → Move k k'

-- A run from the state `start`.
pub data Reach (start : Kernel) : Kernel → Type 0 where
  begin : Reach start start
  next : {k k' : Kernel} → Reach start k → Move k k' → Reach start k'

-- No process is in two places.
abbrev pub Apart : Kernel → Type 0
Apart k = (p : Ptr) → places p k ≤ 1

Keeps-places : (p : Ptr) (k k' : Kernel) → Keeps k k' → places p k' ≡ places p k
unfolding places
Keeps-places p k k' s = ground (
  arith, s.curr, s.ready_q, s.blocked, s.sleeping, s.transmitters, s.transmitting_qs, s.reading_qs,
)

ticks-places :
    (p : Ptr) (hm : HashMap Ptr) (q : List Ptr) (k k' : Kernel)
    → Sleepers hm q k
    → tick_down_sleepers k ≡ ok (success, k')
    → places p k' ≡ places p k
ticks-places p hm q k k' s e =
    let (k₁, run, t) = tick_down_sleepers-Ticked hm q k s in
    let same : k₁ ≡ k' = ap (λ z. z.1) (ok-injective _ _ (sym run ∙ e)) in
    ap (places p) (sym same) ∙ t.placed p

one_more :
    (p child : Ptr) (k k' : Kernel)
    → places child k ≡ 0
    → places p k ≤ 1
    → places p k' ≡ places p k + to_nat (child == p)
    → places p k' ≤ 1
one_more p child k k' nowhere le e = elim (Bool-cases (child == p)) [
  | inl same ↦
      let eq : child ≡ p = ground arith in
      let none_yet : places p k ≡ 0 = ap (λ z. places z k) (sym eq) ∙ nowhere in
      ground (arith, e, none_yet, same)
  | inr other ↦ ground (arith, e, other, le)
]

Move-Apart : {k k' : Kernel} → Move k k' → Apart k → Apart k'
Move-Apart (kicks here k k' e) a p = omega (arith, a p, kick_process-places p here k k' e)
Move-Apart (sleeps here ticks k k' e) a p =
    omega (arith, a p, sleep_process-places p here ticks k k' e)
Move-Apart (blocks here k k' e) a p = omega (arith, a p, block_process-places p here k k' e)
Move-Apart (wakes pid st k k' e) a p = omega (arith, a p, unblock_process-le p pid k (st, k') e)
Move-Apart (exits status k k' e) a p = omega (arith, a p, exit_process-le p status k k' e)
Move-Apart (clock hm q k k' s e) a p = omega (arith, a p, ticks-places p hm q k k' s e)
Move-Apart (reads here tty k k' e) a p = omega (arith, a p, block_reader-places p here tty k k' e)
Move-Apart (lines tty k k' e) a p = omega (arith, a p, unblock_reader-places p tty k k' e)
Move-Apart (queues here tty k k' e) a p =
    omega (arith, a p, block_transmitter-places p here tty k k' e)
Move-Apart (frees tty k k' e) a p = omega (arith, a p, unblock_transmitter-le p tty k k' e)
Move-Apart (transmits here tty k k' e) a p =
    omega (arith, a p, wait_transmitter-le p here tty k k' e)
Move-Apart (signals_last here tty k k₁ k' e f) a p =
    omega (arith, a p, signal-unblock-places p here tty k k₁ k' e f)
Move-Apart (signals_more here again tty k k₁ k' e f) a p =
    omega (arith, a p, signal-wait-places p here again tty k k₁ k' e f)
Move-Apart (forks here child k k' nowhere e) a p =
    one_more p child k k' nowhere (a p) (fork_process-places p here child k k' e)
Move-Apart (admits new k k' nowhere e) a p =
    one_more p new k k' nowhere (a p) (enq_ready-places p new k k' e)
Move-Apart (others k k' s) a p = omega (arith, a p, Keeps-places p k k' s)

-- From a state in which no process is in two places, no run leads to one in which some is.
pub Reach-Apart : (k k' : Kernel) → Reach k k' → Apart k → (p : Ptr) → places p k' ≤ 1
Reach-Apart k k' begin a p = a p
Reach-Apart k k' (next r m) a p = Move-Apart m (Reach-Apart k _ r a) p
