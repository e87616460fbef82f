-- ===== src/Scheduler/Clock/Sleepers.antt =====
-- One call of `tickDownSleeper` of Scheduler.c, on a process that sleeps.
use yallnix.Prelude.{
  ◌+◌, ◌==◌, ap, ◌∙◌, ℕ, suc, ◌≡◌, ◌≢◌, refl, Bool, false, ◌&&◌, Option, none, some, List, [], ◌∷◌,
  ◌++◌, ok, Ptr, null, if◌then◌else◌, arith, Bool-cases, inl, inr, append-nil,
}
use yallnix.Prelude.Int.{ℤ, pos, eq_ℤ, is_nonpos, pred_ℤ}
use yallnix.HashMap.{HashMap}
use yallnix.HashMap.Buckets.{IsValid}
use yallnix.HashMap.Laws.{view, remove-view}
use yallnix.HashMap.Entries.{AllHome}
use yallnix.HashMap.Homes.{remove-AllHome}
use yallnix.Kernel.{Kernel, Pcb, update, set_pcb, took}
use yallnix.HashMap.Count.{count_map, count-remove_map}
use yallnix.Set.Count.{to_nat, count_item}
use yallnix.Scheduler.Places.{here_is, count_list, count_q, places}
use yallnix.Scheduler.Clock.{wake, tick_down_sleeper}

-- The process control block one tick later.
abbrev pub ticked : Option Pcb → Option Pcb
ticked none = none
ticked (some pcb) = some (record pcb { ticks = pred_ℤ pcb.ticks })

-- The next tick is the last one.
abbrev pub is_due : Option Pcb → Bool
is_due none = false
is_due (some pcb) = is_nonpos (pred_ℤ pcb.ticks)

-- The map of sleepers, the ready queue, and memory for every node.
pub record Queues (hm : HashMap Ptr) (q : List Ptr) (k : Kernel) : Type 0 where
  pub sleeping : k.sleeping ≡ some hm
  pub valid : IsValid hm
  pub home : AllHome hm.size 0 hm.sets
  pub ready : k.ready_q ≡ some q
  pub memory : (n : ℕ) → k.mallocs n ≢ null

-- A process that is stored under its own number.
pub record Owned (pcbs : Ptr → Option Pcb) (key : ℤ) (p : Ptr) : Type 0 where
  pub pcb : Pcb
  pub alive : pcbs p ≡ some pcb
  pub number : pos pcb.pid ≡ key

abbrev pub woken_one : Option Pcb → Ptr → List Ptr
woken_one o p = if is_due o then p ∷ [] else []

pub record Stepped (hm : HashMap Ptr) (q : List Ptr) (k : Kernel) (key : ℤ) (p : Ptr) (k' : Kernel)
    : Type 0 where
  pub map : HashMap Ptr
  pub queues : Queues map (q ++ woken_one (k.pcbs p) p) k'
  pub views : (j : ℤ) → view map j ≡ (if eq_ℤ key j && is_due (k.pcbs p) then none else view hm j)
  pub pcbs : k'.pcbs ≡ update k.pcbs p (ticked (k.pcbs p))
  pub placed : (x : Ptr) → places x k' ≡ places x k

count_list-last :
    (x p : Ptr) (q : List Ptr) → count_list x (q ++ p ∷ []) ≡ to_nat (p == x) + count_list x q
count_list-last x p [] = refl
count_list-last x p (y ∷ q) = omega (arith, count_list-last x p q)

-- A process in the map is counted down, and a due one moves from the map to the end of the ready
-- queue.
pub tick_down_sleeper-Stepped :
    (hm : HashMap Ptr) (q : List Ptr) (k : Kernel) (key : ℤ) (p : Ptr) (c : ℕ)
    → Queues hm q k
    → view hm key ≡ some p
    → Owned k.pcbs key p
    → (k' : Kernel) × (tick_down_sleeper key p (ok (c, k)) ≡ ok (c, k')) × Stepped hm q k key p k'
unfolding tick_down_sleeper wake places
tick_down_sleeper-Stepped hm q k key p c s at o =
    elim (Bool-cases (is_nonpos (pred_ℤ o.pcb.ticks))) [
      | inr later ↦
          let k₁ : Kernel = set_pcb p (record o.pcb { ticks = pred_ℤ o.pcb.ticks }) k in
          (
            k₁,
            ground (arith, o.alive, later),
            record {
              map = hm;
              queues = record {
                sleeping = s.sleeping;
                valid = s.valid;
                home = s.home;
                ready = ground (arith, s.ready, o.alive, later, append-nil q);
                memory = s.memory;
              };
              views = λ j. ground (arith, o.alive, later);
              pcbs = rw o.alive refl;
              placed = λ x. refl;
            },
          )
      | inl now ↦
          let (hm', run, v', size, gone) = remove-view (pos o.pcb.pid) hm s.valid tt in
          let k₁ : Kernel = set_pcb p (record o.pcb { ticks = pred_ℤ o.pcb.ticks }) k in
          let k₂ : Kernel = record (took k₁) {
            ready_q = some (q ++ p ∷ []);
            sleeping = some hm';
          } in
          (
            k₂,
            ground (arith, o.alive, now, s.sleeping, run, s.ready, s.memory 0),
            record {
              map = hm';
              queues = record {
                sleeping = refl;
                valid = v';
                home = remove-AllHome (pos o.pcb.pid) hm hm' _ s.valid tt run s.home;
                ready = ground (arith, o.alive, now);
                memory = λ n. s.memory (suc n);
              };
              views = λ j. ground (arith, gone j, o.alive, now, o.number);
              pcbs = rw o.alive refl;
              placed = λ x. omega (
                arith,
                count_list-last x p q,
                count-remove_map (here_is x) (pos o.pcb.pid) (some hm) (some hm') _ run,
                ap (count_item (here_is x)) (ap (view hm) o.number ∙ at),
                ap (count_q x) s.ready,
                ap (count_map (here_is x)) s.sleeping,
              );
            },
          )
    ]
