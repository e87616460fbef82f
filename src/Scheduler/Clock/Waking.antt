-- ===== src/Scheduler/Clock/Waking.antt =====
-- `tickDownSleepers` of Scheduler.c, and how long a process sleeps.
use yallnix.Prelude.{
  ℕ, zero, suc, ◌≡◌, refl, sym, ap, ◌∙◌, Option, none, some, List, [], ◌∷◌, ◌++◌, ok, Run, ◌>>=◌,
  Ptr, if◌then◌else◌, arith, Bool-cases, inl, inr, append_assoc, success, true, subst,
}
use yallnix.Prelude.Int.{ℤ, pos, eq_ℤ}
use yallnix.Set.{Set, find_loop, iterate_loop}
use yallnix.HashMap.{HashMap}
use yallnix.HashMap
use yallnix.HashMap.Laws.{view}
use yallnix.HashMap.Entries.{all_nodes, find-all_nodes, all_nodes-Distinct, iterate-nodes}
use yallnix.Kernel.{Kernel, Pcb}
use yallnix.Scheduler.Places.{places}
use yallnix.Scheduler.Clock.{tick_down_sleeper, tick_down_sleepers}
use yallnix.Scheduler.Clock.Sleepers.{ticked, is_due, Queues, Owned, woken_one}
use yallnix.Scheduler.Clock.Round.{woken, leaves, tick_down-Round}

-- The map of sleepers is valid, with each process under its own number; the ready queue is there, and
-- memory for every node.
pub record Sleepers (hm : HashMap Ptr) (q : List Ptr) (k : Kernel) : Type 0 where
  pub queues : Queues hm q k
  pub owned : (j : ℤ) (p : Ptr) → view hm j ≡ some p → Owned k.pcbs j p

-- The sleepers that the next tick wakes, in the order in which they become ready.
abbrev pub due : HashMap Ptr → Kernel → List Ptr
due hm k = woken k.pcbs (all_nodes hm.sets)

pub record Ticked (hm : HashMap Ptr) (q : List Ptr) (k k' : Kernel) : Type 0 where
  pub map : HashMap Ptr
  pub sleepers : Sleepers map (q ++ due hm k) k'
  pub views : (j : ℤ) → view map j ≡ (if leaves k.pcbs (view hm j) then none else view hm j)
  pub counted : (j : ℤ) (p : Ptr) → view hm j ≡ some p → k'.pcbs p ≡ ticked (k.pcbs p)
  pub placed : (p : Ptr) → places p k' ≡ places p k

stays :
    (pcbs : Ptr → Option Pcb) (v w : Option Ptr) (p : Ptr)
    → v ≡ (if leaves pcbs w then none else w)
    → v ≡ some p
    → w ≡ some p
stays pcbs v none p e f = cc
stays pcbs v (some x) p e f = elim (Bool-cases (is_due (pcbs x))) [
  | inl h ↦ ground (arith, e, f, h)
  | inr h ↦ ground (arith, e, f, h)
]

Owned-ticked :
    (f g : Ptr → Option Pcb) (j : ℤ) (p : Ptr) → Owned f j p → g p ≡ ticked (f p) → Owned g j p
Owned-ticked f g j p o e = record { pcb = _; alive = e ∙ ap ticked o.alive; number = o.number }

tick_run :
    (hm : HashMap Ptr) (k k' : Kernel)
    → k.sleeping ≡ some hm
    → iterate_loop tick_down_sleeper (all_nodes hm.sets) (ok (0, k)) ≡ ok (0, k')
    → tick_down_sleepers k ≡ ok (success, k')
unfolding tick_down_sleepers
tick_run hm k k' e run =
    let visit : HashMap.iterate (some tick_down_sleeper) k.sleeping (ok (0, k)) ≡ ok (0, k') =
      ap (λ m. HashMap.iterate (some tick_down_sleeper) m (ok (0, k))) e
      ∙ iterate-nodes tick_down_sleeper hm (ok (0, k))
      ∙ run in
    rw visit refl

-- `tickDownSleepers` with a valid map of sleepers, each under its own number, a ready queue and
-- memory for every node: it succeeds and counts every sleeper down by one; those whose count is
-- then over, and no others, leave the map and become the youngest ready processes, in the order in
-- which the map is visited; and the state stays such.
pub tick_down_sleepers-Ticked :
    (hm : HashMap Ptr) (q : List Ptr) (k : Kernel)
    → Sleepers hm q k
    → (k' : Kernel) × (tick_down_sleepers k ≡ ok (success, k')) × Ticked hm q k k'
tick_down_sleepers-Ticked hm q k s =
    let l : Set Ptr = all_nodes hm.sets in
    let found : (j : ℤ) → find_loop j l ≡ view hm j = λ j. find-all_nodes j hm s.queues.home in
    let (k', run, r) =
      tick_down-Round hm q k l 0 s.queues
        (all_nodes-Distinct hm.size 0 hm.sets s.queues.valid.hold s.queues.home)
        (λ j p e. (sym (found j) ∙ e, s.owned j p (sym (found j) ∙ e))) in
    let views =
      λ (j : ℤ). r.views j ∙ ap (λ f. if leaves k.pcbs f then none else view hm j) (found j) in
    let counted = λ (j : ℤ) (p : Ptr) (e : view hm j ≡ some p). r.counted j p (found j ∙ e) in
    (
      k',
      tick_run hm k k' s.queues.sleeping run,
      record {
        map = r.map;
        sleepers = record {
          queues = r.queues;
          owned = λ j p e.
              let old = stays k.pcbs (view r.map j) (view hm j) p (views j) e in
              Owned-ticked k.pcbs k'.pcbs j p (s.owned j p old) (counted j p old);
        };
        views = views;
        counted = counted;
        placed = r.placed;
      },
    )

-- `n` ticks of the clock.
unfoldable pub after_ticks : ℕ → Kernel → Run Kernel
after_ticks zero k = ok k
after_ticks (suc n) k = do (st, k') ← tick_down_sleepers k; after_ticks n k'

abbrev pub IsIn : Ptr → List Ptr → Type 0
IsIn p q = (a : List Ptr) × (b : List Ptr) × (q ≡ a ++ p ∷ b)

-- The process sleeps with so many ticks left.
pub record Sleeps (j : ℤ) (p : Ptr) (left : ℕ) (k : Kernel) : Type 0 where
  pub map : HashMap Ptr
  pub q : List Ptr
  pub sleepers : Sleepers map q k
  pub there : view map j ≡ some p
  pub pcb : Pcb
  pub alive : k.pcbs p ≡ some pcb
  pub left_is : pcb.ticks ≡ pos left

-- The process does not sleep, and is ready.
pub record Awake (j : ℤ) (p : Ptr) (k : Kernel) : Type 0 where
  pub map : HashMap Ptr
  pub q : List Ptr
  pub sleepers : Sleepers map q k
  pub gone : view map j ≡ none
  pub ready : IsIn p q

woken-IsIn :
    (pcbs : Ptr → Option Pcb) (j : ℤ) (p : Ptr) (l : Set Ptr)
    → find_loop j l ≡ some p
    → is_due (pcbs p) ≡ true
    → IsIn p (woken pcbs l)
unfolding find_loop
woken-IsIn pcbs j p [] e d = cc
woken-IsIn pcbs j p ((key, x) ∷ l) e d = elim (Bool-cases (eq_ℤ key j)) [
  | inl hit ↦
      let eq : x ≡ p = ground (arith, rw hit at e) in
      (
        [],
        woken pcbs l,
        subst (λ z. woken_one (pcbs z) z ++ woken pcbs l ≡ p ∷ woken pcbs l) (sym eq) (rw d refl),
      )
  | inr miss ↦
      let (a, b, f) = woken-IsIn pcbs j p l (rw miss at e) d in
      (woken_one (pcbs x) x ++ a, b, rw f (sym (append_assoc (woken_one (pcbs x) x) a (p ∷ b))))
]

-- One tick of a process that has more than one left.
Sleeps-tick :
    (j : ℤ) (p : Ptr) (n : ℕ) (k : Kernel)
    → Sleeps j p (suc (suc n)) k
    → (k' : Kernel) × (tick_down_sleepers k ≡ ok (success, k')) × Sleeps j p (suc n) k'
Sleeps-tick j p n k s =
    let (k', run, t) = tick_down_sleepers-Ticked s.map s.q k s.sleepers in
    (
      k',
      run,
      record {
        map = t.map;
        q = s.q ++ due s.map k;
        sleepers = t.sleepers;
        there = t.views j ∙ rw (s.there, s.alive, s.left_is) refl;
        pcb = _;
        alive = t.counted j p s.there ∙ ap ticked s.alive;
        left_is = rw s.left_is refl;
      },
    )

-- The last tick.
Sleeps-wakes :
    (j : ℤ) (p : Ptr) (k : Kernel)
    → Sleeps j p 1 k
    → (k' : Kernel) × (tick_down_sleepers k ≡ ok (success, k')) × Awake j p k'
Sleeps-wakes j p k s =
    let (k', run, t) = tick_down_sleepers-Ticked s.map s.q k s.sleepers in
    let now : is_due (k.pcbs p) ≡ true = rw (s.alive, s.left_is) refl in
    let (a, b, e) =
      woken-IsIn k.pcbs j p (all_nodes s.map.sets)
        (find-all_nodes j s.map s.sleepers.queues.home ∙ s.there) now in
    (
      k',
      run,
      record {
        map = t.map;
        q = s.q ++ due s.map k;
        sleepers = t.sleepers;
        gone = t.views j ∙ rw (s.there, now) refl;
        ready = (s.q ++ a, b, ap (λ z. s.q ++ z) e ∙ sym (append_assoc s.q a (p ∷ b)));
      },
    )

-- A process that sleeps with `n + 1` ticks left, in a valid map of sleepers with each process under
-- its own number, a ready queue and memory: after `n` ticks it still sleeps, with one tick left, and
-- the next tick takes it from the map to the ready queue.
pub sleeper-Awake :
    (j : ℤ) (p : Ptr) (n : ℕ) (k : Kernel)
    → Sleeps j p (suc n) k
    → (k' : Kernel) × (k'' : Kernel) × (after_ticks n k ≡ ok k')
      × Sleeps j p 1 k'
      × (after_ticks (suc n) k ≡ ok k'')
      × Awake j p k''
unfolding after_ticks
sleeper-Awake j p zero k s =
    let (k'', run, w) = Sleeps-wakes j p k s in (k, k'', refl, s, rw run refl, w)
sleeper-Awake j p (suc n) k s =
    let (k₁, run, s₁) = Sleeps-tick j p n k s in
    let (k', k'', before, s', after, w) = sleeper-Awake j p n k₁ s₁ in
    (k', k'', rw run before, s', rw run after, w)
