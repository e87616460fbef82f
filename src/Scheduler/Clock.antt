-- ===== src/Scheduler/Clock.antt =====
-- `tickDownSleepers` and `tickDownSleeper` of Scheduler.c.
pub mod Sleepers
pub mod Round
pub mod Waking
pub mod Delay
mod Tests
use yallnix.Prelude.{
  ℕ, ◌+◌, ltb, none, some, Run, ok, ◌>>=◌, deref, Ptr, if◌then◌else◌, Status, error, success,
}
use yallnix.Prelude.Int.{ℤ, pos, is_nonpos, pred_ℤ}
use yallnix.HashMap
use yallnix.Kernel.{Kernel, Pcb, set_pcb, enq_ready}

-- `HashMap_remove(…) == NULL || enq_q(…) == ERROR`, and the count of errors.
wake : Ptr → Pcb → ℕ → Kernel → Run (ℕ × Kernel)
wake sleeper pcb count k = do
  (found, m) ← HashMap.remove (pos pcb.pid) k.sleeping
  let k₁ : Kernel = record k { sleeping = m }
  ok (elim found [
    | none ↦ (count + 1, k₁)
    | some _ ↦
        let r : Status × Kernel = enq_ready sleeper k₁ in
        (elim r.0 [ error ↦ count + 1 | success ↦ count ], r.1)
  ])

unfoldable pub tick_down_sleeper : ℤ → Ptr → Run (ℕ × Kernel) → Run (ℕ × Kernel)
unfolding wake
tick_down_sleeper key sleeper s = do
  (count, k) ← s
  pcb ← deref (k.pcbs sleeper)
  let pcb' : Pcb = record pcb { ticks = pred_ℤ pcb.ticks }
  let k₁ : Kernel = set_pcb sleeper pcb' k
  if is_nonpos pcb'.ticks then wake sleeper pcb' count k₁ else ok (count, k₁)

unfoldable pub tick_down_sleepers : Kernel → Run (Status × Kernel)
unfolding tick_down_sleeper
tick_down_sleepers k = do
  (count, k') ← HashMap.iterate (some tick_down_sleeper) k.sleeping (ok (0, k))
  ok (if ltb 0 count then error else success, k')
