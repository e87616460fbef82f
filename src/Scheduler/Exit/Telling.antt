-- ===== src/Scheduler/Exit/Telling.antt =====
-- What the parent is told by `exitProcess` of Scheduler.c, where it is blocked.
use yallnix.Prelude.{
  ℕ, suc, ◌≡◌, ◌≢◌, refl, ap, ◌∙◌, Option, none, some, List, [], ◌∷◌, ◌++◌, ok, Ptr, null, arith,
  success, Option-cases, inl, inr,
}
use yallnix.Prelude.Int.{ℤ, pos}
use yallnix.HashMap.{HashMap}
use yallnix.HashMap.Buckets.{IsValid}
use yallnix.HashMap.Laws.{view}
use yallnix.Kernel.{Kernel, Pcb, Zombie, Resume, took, set_pcb, update}
use yallnix.Scheduler.{unblock_process}
use yallnix.Scheduler.Blocking.{unblock_process-ready}
use yallnix.Scheduler.Exit.{leave_zombie, zombie_queue}

-- The zombies that nobody has collected.
abbrev pub listed : Option (List Zombie) → List Zombie
listed none = []
listed (some zs) = zs

abbrev pub HasMemory : Kernel → Type 0
HasMemory k = (n : ℕ) → k.mallocs n ≢ null

-- The parent waits in the map of blocked processes, and there is memory.
pub record Waiting (k : Kernel) (parent : Ptr) (par : Pcb) (q : List Ptr) : Type 0 where
  pub alive : k.pcbs parent ≡ some par
  pub blocked : HashMap Ptr
  pub is : k.blocked ≡ some blocked
  pub valid : IsValid blocked
  pub waits : view blocked (pos par.pid) ≡ some parent
  pub ready : k.ready_q ≡ some q
  pub memory : HasMemory k
  pub context : Resume
  pub saved : par.kctxt ≡ some context

-- The parent is ready, and the zombie is its youngest.
pub record Told (k : Kernel) (parent : Ptr) (par : Pcb) (z : Zombie) (q : List Ptr) (k' : Kernel)
    : Type 0 where
  pub blocks :
      k'.pcbs
      ≡ update k.pcbs parent (some (record par { zombie_q = some (listed par.zombie_q ++ z ∷ []) }))
  pub ready : k'.ready_q ≡ some (q ++ parent ∷ [])
  pub curr : k'.curr ≡ k.curr
  pub memory : HasMemory k'

left :
    (k : Kernel) (parent : Ptr) (par : Pcb) (z : Zombie) (q : List Ptr) (w : Waiting k parent par q)
    (k₂ : Kernel)
    → k₂
      ≡ set_pcb parent
          (record par { zombie_q = some (listed par.zombie_q ++ z ∷ []) })
          (record k { mallocs = k₂.mallocs })
    → HasMemory k₂
    → (k' : Kernel) × (unblock_process par.pid k₂ ≡ ok (success, k')) × Told k parent par z q k'
left k parent par z q w k₂ eq m =
    let (hm, run, v, views) =
      unblock_process-ready k₂ par.pid parent w.blocked q (ap (λ x. x.blocked) eq ∙ w.is) w.valid
        w.waits (ap (λ x. x.ready_q) eq ∙ w.ready) (m 0) in
    (
      record (took k₂) { ready_q = some (q ++ parent ∷ []); blocked = some hm },
      run,
      record {
        blocks = ap (λ x. x.pcbs) eq;
        ready = refl;
        curr = ap (λ x. x.curr) eq;
        memory = λ n. m (suc n);
      },
    )

-- The parent gets the zombie and is ready.
pub leave_zombie-Told :
    (pcb : Pcb) (status : ℤ) (k : Kernel) (parent : Ptr) (par : Pcb) (q : List Ptr)
    → Waiting k parent par q
    → (k' : Kernel) × (leave_zombie pcb status parent k ≡ ok (success, k'))
      × Told k parent par (record { pid = pcb.pid; exit_status = status }) q k'
unfolding leave_zombie zombie_queue
leave_zombie-Told pcb status k parent par q w =
    let z : Zombie = record { pid = pcb.pid; exit_status = status } in
    elim (Option-cases par.zombie_q) [
      | inl new ↦
          let k₂ : Kernel =
            set_pcb parent (record par { zombie_q = some (z ∷ []) }) (took (took (took k))) in
          let (k', run, t) =
            left k parent par z q w k₂ (rw new refl) (λ n. w.memory (suc (suc (suc n)))) in
          (k', ground (arith, w.alive, new, w.memory 0, w.memory 1, w.memory 2, run), t)
      | inr (zs, old) ↦
          let k₂ : Kernel =
            set_pcb parent (record par { zombie_q = some (zs ++ z ∷ []) }) (took (took k)) in
          let (k', run, t) =
            left k parent par z q w k₂ (rw old refl) (λ n. w.memory (suc (suc n))) in
          (k', ground (arith, w.alive, old, w.memory 0, w.memory 1, run), t)
    ]
