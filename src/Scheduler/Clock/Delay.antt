-- ===== src/Scheduler/Clock/Delay.antt =====
-- From `sleepProcess` of Scheduler.c to the tick that wakes the process.
use yallnix.Prelude.{
  ℕ, suc, ◌≡◌, ◌≢◌, refl, sym, ap, ◌∙◌, none, some, List, ◌∷◌, ok, Ptr, null, ◌==◌, if◌then◌else◌,
  arith, Bool-cases, inl, inr, true, success, ==_iff, subst,
}
use yallnix.Prelude.Int.{ℤ, pos, eq_ℤ, eq_ℤ_refl, eq_ℤ_iff}
use yallnix.HashMap.{HashMap}
use yallnix.HashMap
use yallnix.HashMap.Laws.{view, find-view, insert-view}
use yallnix.HashMap.Homes.{insert-AllHome}
use yallnix.Kernel.{Kernel, Pcb, Resume, set_pcb, took, switched}
use yallnix.Kernel.Switch.{switch_between}
use yallnix.Kernel.Current.{switch_between-Switched}
use yallnix.Kernel.Contexts.{Same, switch_between-Same}
use yallnix.Scheduler.{sleep_process, run_ready}
use yallnix.Scheduler.Rotation.{CanSave, switch_between-total}
use yallnix.Scheduler.Clock.Sleepers.{Owned}
use yallnix.Scheduler.Clock.Waking.{Sleepers, Sleeps, Awake, after_ticks, sleeper-Awake}

-- The process that runs can be saved and does not sleep, and another one is ready.
pub record CanSleep (hm : HashMap Ptr) (next : Ptr) (rest : List Ptr) (k : Kernel) : Type 0 where
  pub sleepers : Sleepers hm (next ∷ rest) k
  pub saves : CanSave k k.curr
  pub awake : view hm (pos saves.pcb.pid) ≡ none
  pub next_pcb : Pcb
  pub next_alive : k.pcbs next ≡ some next_pcb

module _ (hm : HashMap Ptr) (next : Ptr) (rest : List Ptr) (k : Kernel)
    (s : CanSleep hm next rest k) where
  -- The process with its ticks, in the map of sleepers, off the processor.
  going : ℕ → HashMap Ptr → Kernel
  going n hm' = record (took (set_pcb k.curr (record s.saves.pcb { ticks = pos n }) k)) {
    sleeping = some hm';
    ready_q = some rest;
  }

  going-alive :
      (n : ℕ) (hm' : HashMap Ptr) (x : Ptr) (pcb : Pcb)
      → k.pcbs x ≡ some pcb
      → (b : Pcb) × ((going n hm').pcbs x ≡ some b) × (b.pid ≡ pcb.pid)
  unfolding going
  going-alive n hm' x pcb e = elim (Bool-cases (x == k.curr)) [
    | inl same ↦
        let one : some s.saves.pcb ≡ some pcb =
          sym s.saves.alive ∙ ap k.pcbs (sym ((==_iff x k.curr).0 same)) ∙ e in
        (record s.saves.pcb { ticks = pos n }, rw same refl, ground (arith, one))
    | inr other ↦ (pcb, rw other e, refl)
  ]

  going-switches :
      (here : Resume) (n : ℕ) (hm' : HashMap Ptr)
      → (k' : Kernel) × (switch_between here (some k.curr) next (going n hm') ≡ ok k')
  unfolding going
  going-switches here n hm' =
      let (b, e, p) = going-alive n hm' next s.next_pcb s.next_alive in
      switch_between-total here k.curr next (going n hm')
        (record {
          pcb = record s.saves.pcb { ticks = pos n };
          old = s.saves.old;
          alive = ground arith;
          context = s.saves.context;
        })
        (record { pcb = b; alive = e; context = inr (λ z. s.sleepers.queues.memory 1 z) })

  going-me :
      (n : ℕ) (hm' : HashMap Ptr)
      → (going n hm').pcbs k.curr ≡ some (record s.saves.pcb { ticks = pos n })
  unfolding going
  going-me n hm' = ground arith

  going-memory : (n : ℕ) (hm' : HashMap Ptr) (i : ℕ) → (going n hm').mallocs i ≢ null
  unfolding going
  going-memory n hm' i = s.sleepers.queues.memory (suc i)

  going-run :
      (here : Resume) (n : ℕ) (hm' : HashMap Ptr) (k' : Kernel)
      → HashMap.insert true (pos s.saves.pcb.pid) (some k.curr) (some hm) ≡ ok (success, some hm')
      → switch_between here (some k.curr) next (going (suc n) hm') ≡ ok k'
      → sleep_process here (pos (suc n)) k ≡ ok (switched, k')
  unfolding sleep_process run_ready going
  going-run here n hm' k' run e = ground (
    arith,
    s.saves.alive,
    s.sleepers.queues.sleeping,
    s.sleepers.queues.ready,
    s.sleepers.queues.memory 0,
    run,
    e,
  )

  going-Owned :
      (n : ℕ) (hm' : HashMap Ptr) (k' : Kernel) (j : ℤ) (x : Ptr)
      → Same (going n hm') k'
      → Owned k.pcbs j x
      → Owned k'.pcbs j x
  going-Owned n hm' k' j x same o =
      let (b, e, p) = going-alive n hm' x o.pcb o.alive in
      let (c, f) = same.blocks x b e in
      record { pcb = record b { kctxt = c }; alive = f; number = ap pos p ∙ o.number }

  -- The map with the process in it, and the others under their own numbers.
  slept-Owned :
      (n : ℕ) (hm' : HashMap Ptr) (k' : Kernel)
      → ((j : ℤ) → view hm' j ≡ (if eq_ℤ (pos s.saves.pcb.pid) j then some k.curr else view hm j))
      → Same (going n hm') k'
      → (j : ℤ) (x : Ptr) → view hm' j ≡ some x
      → Owned k'.pcbs j x
  slept-Owned n hm' k' views same j x e = elim (Bool-cases (eq_ℤ (pos s.saves.pcb.pid) j)) [
    | inl hit ↦
        let key : pos s.saves.pcb.pid ≡ j = (eq_ℤ_iff (pos s.saves.pcb.pid) j).0 hit in
        let me : k.curr ≡ x = ground (arith, e, views j, hit) in
        going-Owned n hm' k' j x same (record {
          pcb = s.saves.pcb;
          alive = subst (λ z. k.pcbs z ≡ some s.saves.pcb) me s.saves.alive;
          number = key;
        })
    | inr miss ↦
        going-Owned n hm' k' j x same (s.sleepers.owned j x (ground (arith, e, views j, miss)))
  ]

  -- `sleepProcess` for `n + 1` ticks puts the process to sleep with so many ticks left.
  pub sleep_process-Sleeps :
      (here : Resume) (n : ℕ)
      → (k' : Kernel) × (sleep_process here (pos (suc n)) k ≡ ok (switched, k'))
        × Sleeps (pos s.saves.pcb.pid) k.curr (suc n) k'
  unfolding going
  sleep_process-Sleeps here n =
      let queues = s.sleepers.queues in
      let key : ℤ = pos s.saves.pcb.pid in
      let (hm', run, v', size, views) =
        insert-view key k.curr hm queues.valid tt
          (find-view key hm queues.valid tt ∙ ap ok s.awake) in
      let (k', e) = going-switches here (suc n) hm' in
      let sw = switch_between-Switched here (some k.curr) next (going (suc n) hm') k' e in
      let same = switch_between-Same here k.curr next (going (suc n) hm') k' e in
      let (c, f) =
        same.blocks k.curr (record s.saves.pcb { ticks = pos (suc n) }) (going-me (suc n) hm') in
      (
        k',
        going-run here n hm' k' run e,
        record {
          map = hm';
          q = rest;
          sleepers = record {
            queues = record {
              sleeping = ap (λ z. z.sleeping) sw.same;
              valid = v';
              home = insert-AllHome true key k.curr hm hm' _ queues.valid tt run queues.home;
              ready = ap (λ z. z.ready_q) sw.same;
              memory = same.memory (going-memory (suc n) hm');
            };
            owned = slept-Owned (suc n) hm' k' views same;
          };
          there = views key ∙ rw (eq_ℤ_refl key) refl;
          pcb = _;
          alive = f;
          left_is = refl;
        },
      )

-- A process that can be saved, does not sleep and calls `sleepProcess` for `n + 1` ticks, while
-- another one is ready, gives the processor up. After `n` calls of `tickDownSleepers`, with
-- nothing in between, it still sleeps, with one tick left, and the next one takes it from the map
-- of sleepers to the ready queue. This holds from a valid map of sleepers, each under its own
-- number, with memory for every node.
pub sleep_process-Awake :
    (here : Resume) (n : ℕ) (hm : HashMap Ptr) (next : Ptr) (rest : List Ptr) (k : Kernel)
    → (s : CanSleep hm next rest k)
    → (k₁ : Kernel) × (k₂ : Kernel) × (k₃ : Kernel) × (sleep_process here (pos (suc n)) k
        ≡ ok (switched, k₁))
      × (after_ticks n k₁ ≡ ok k₂)
      × Sleeps (pos s.saves.pcb.pid) k.curr 1 k₂
      × (after_ticks (suc n) k₁ ≡ ok k₃)
      × Awake (pos s.saves.pcb.pid) k.curr k₃
sleep_process-Awake here n hm next rest k s =
    let (k₁, run, asleep) = sleep_process-Sleeps hm next rest k s here n in
    let (k₂, k₃, before, one, after, awake) =
      sleeper-Awake (pos s.saves.pcb.pid) k.curr n k₁ asleep in
    (k₁, k₂, k₃, run, before, one, after, awake)
