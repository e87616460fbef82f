-- ===== src/Scheduler/Clock/Tests.antt =====
-- The clock from the state of Kernel.Sample.
use yallnix.Prelude.{
  ◌≡◌, refl, sym, subst, ◌∙◌, Bool-cases, inl, inr, some, none, [], ◌∷◌, ok, Ptr, arith, success,
}
use yallnix.Prelude.Int.{ℤ, pos, eq_ℤ, eq_ℤ_iff}
use yallnix.Set
use yallnix.Set.{find_loop}
use yallnix.HashMap.Laws.{view}
use yallnix.HashMap.Entries.{find-all_nodes}
use yallnix.Kernel.{Kernel, trap, acquire, switched}
use yallnix.Kernel.Sample.{pcb, one, empty, one-IsValid, sample}
use yallnix.Scheduler.{sleep_process}
use yallnix.Scheduler.Clock.{tick_down_sleepers}
use yallnix.Scheduler.Clock.Sleepers.{Owned}
use yallnix.Scheduler.Clock.Waking.{
  Sleepers, Ticked, Sleeps, Awake, after_ticks, tick_down_sleepers-Ticked,
}
use yallnix.Scheduler.Clock.Delay.{CanSleep, sleep_process-Awake}

-- Process 3 sleeps, with its last tick.
abbrev napping : Kernel
napping = record sample { sleeping = some (one 3 30) }

one_three : (j : ℤ) (p : Ptr) → view (one 3 30) j ≡ some p → Owned napping.pcbs j p
unfolding Set.find find_loop
one_three j p e = elim (Bool-cases (eq_ℤ (pos 3) j)) [
  | inl hit ↦
      let here : find_loop j ((pos 3, 30) ∷ []) ≡ some p =
        find-all_nodes j (one 3 30) ((refl, tt), tt) ∙ e in
      let me : 30 ≡ p = ground (arith, rw hit at here) in
      subst (Owned napping.pcbs j) me
        (record { pcb = pcb 3 (acquire 40); alive = refl; number = (eq_ℤ_iff (pos 3) j).0 hit })
  | inr miss ↦
      let here : find_loop j ((pos 3, 30) ∷ []) ≡ some p =
        find-all_nodes j (one 3 30) ((refl, tt), tt) ∙ e in
      cc (rw miss at here)
]

napping-Sleepers : Sleepers (one 3 30) (20 ∷ []) napping
napping-Sleepers = record {
  queues = record {
    sleeping = refl;
    valid = one-IsValid 3 30;
    home = ((refl, tt), tt);
    ready = refl;
    memory = λ n. omega arith;
  };
  owned = one_three;
}

tick_down_sleepers-Ticked_example :
    (k' : Kernel) × (tick_down_sleepers napping ≡ ok (success, k'))
    × Ticked (one 3 30) (20 ∷ []) napping k'
tick_down_sleepers-Ticked_example =
    tick_down_sleepers-Ticked (one 3 30) (20 ∷ []) napping napping-Sleepers

nobody : (j : ℤ) → view {V = Ptr} empty j ≡ none
unfolding Set.find find_loop
nobody j = sym (find-all_nodes j empty (tt, tt))

nobody-Owned : (j : ℤ) (p : Ptr) → view empty j ≡ some p → Owned sample.pcbs j p
nobody-Owned j p e = cc (e, nobody j)

-- Process 1 goes to sleep while process 2 is ready.
abbrev sleepy : CanSleep empty 20 [] sample
sleepy = record {
  sleepers = record {
    queues = record {
      sleeping = refl;
      valid = record { sized = refl; nonempty = omega arith; hold = (tt, tt) };
      home = (tt, tt);
      ready = refl;
      memory = λ n. omega arith;
    };
    owned = nobody-Owned;
  };
  saves = record { pcb = pcb 1 trap; old = trap; alive = refl; context = refl };
  awake = nobody (pos 1);
  next_pcb = pcb 2 trap;
  next_alive = refl;
}

sleep_process-Awake_example :
    (k₁ : Kernel) × (k₂ : Kernel) × (k₃ : Kernel) × (sleep_process trap (pos 3) sample
      ≡ ok (switched, k₁))
    × (after_ticks 2 k₁ ≡ ok k₂)
    × Sleeps (pos 1) 10 1 k₂
    × (after_ticks 3 k₁ ≡ ok k₃)
    × Awake (pos 1) 10 k₃
sleep_process-Awake_example = sleep_process-Awake trap 2 empty 20 [] sample sleepy
