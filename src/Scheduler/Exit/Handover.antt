-- ===== src/Scheduler/Exit/Handover.antt =====
-- `exitProcess` of Scheduler.c in a process with a parent: what the parent is told, and what runs next.
use yallnix.Prelude.{
  ◌≡◌, ◌≢◌, refl, sym, ap, ◌∙◌, Option, none, some, List, [], ◌∷◌, ◌++◌, ok, Ptr, ◌==◌, ==_iff,
  arith, Bool-cases, inl, inr,
}
use yallnix.Prelude.Int.{ℤ}
use yallnix.Kernel.{Kernel, Pcb, Zombie, starter, switched, update}
use yallnix.Scheduler.{run_ready}
use yallnix.Scheduler.Exit.{free_stack, free_table, tell_parent, delete_process, exit_process}
use yallnix.Scheduler.Exit.Orphans.{
  ChildrenAlive, OldParent, Orphaned, children-Orphaned, StayAlive, ChildrenAlive-stay,
}
use yallnix.Scheduler.Exit.Telling.{listed, HasMemory, Waiting, Told, leave_zombie-Told}
use yallnix.Scheduler.Exit.Opening.{context_of, run_ready-Opened}

-- The child is gone. The parent keeps its block, with the zombie as the youngest, and is ready or runs.
pub record Handed (k : Kernel) (parent : Ptr) (par : Pcb) (z : Zombie) (next : Ptr)
    (rest : List Ptr) (k' : Kernel) : Type 0 where
  pub gone : k'.pcbs k.curr ≡ none
  pub runs : k'.curr ≡ next
  pub ready : k'.ready_q ≡ some rest
  pub grandparent : Option Ptr
  pub old : OldParent par.parent grandparent
  pub alive :
      k'.pcbs parent
      ≡ some (record par { zombie_q = some (listed par.zombie_q ++ z ∷ []); parent = grandparent })

-- The block of the process that exits is gone, and all others but for their parent are there.
record Ended (x : Ptr) (k k' : Kernel) : Type 0 where
  pub gone : k'.pcbs x ≡ none
  pub ready : k'.ready_q ≡ k.ready_q
  pub mallocs : k'.mallocs ≡ k.mallocs
  pub blocks :
      (y : Ptr) (b : Pcb)
      → y ≢ x
      → k.pcbs y ≡ some b
      → (o : Option Ptr) × OldParent b.parent o × (k'.pcbs y ≡ some (record b { parent = o }))

delete_process-Ended :
    (x : Ptr) (b : Pcb) (k k₂ : Kernel)
    → k.pcbs x ≡ some b
    → Orphaned k k₂
    → (k' : Kernel) × (delete_process x k₂ ≡ ok k') × Ended x k k'
unfolding delete_process
delete_process-Ended x b k k₂ at o =
    let (p, h, here) = o.blocks x b at in
    (
      record k₂ {
        pcbs = update k₂.pcbs x none;
        frames = free_stack b.stack_pfns (free_table b.r1_table k₂.frames);
      },
      ground (arith, here),
      record {
        gone = ground arith;
        ready = ap (λ z. z.ready_q) o.rest;
        mallocs = ap (λ z. z.mallocs) o.rest;
        blocks = λ y c ne e. let (q, h, f) = o.blocks y c e in (q, h, ground (arith, ne, f));
      },
    )

module _ (status : ℤ) (k : Kernel) (pcb : Pcb) (parent : Ptr) (par : Pcb) (q : List Ptr)
    (next : Ptr) (rest : List Ptr) (nb : Pcb) (w : Waiting k parent par q)
    (at : k.pcbs k.curr ≡ some pcb) (child : pcb.parent ≡ some parent) (other : parent ≢ k.curr)
    (kids : ChildrenAlive pcb.children k) (order : q ++ parent ∷ [] ≡ next ∷ rest)
    (there : k.pcbs next ≡ some nb) (not_it : next ≢ k.curr) where
  abbrev zombie : Zombie
  zombie = record { pid = pcb.pid; exit_status = status }

  abbrev heir_of : Option Ptr → Pcb
  heir_of o = record par { zombie_q = some (listed par.zombie_q ++ zombie ∷ []); parent = o }

  module _ (k₁ k₃ : Kernel) (t : Told k parent par zombie q k₁) (d : Ended k.curr k₁ k₃) where
    ready : k₃.ready_q ≡ some (next ∷ rest)
    ready = d.ready ∙ t.ready ∙ ap some order

    memory : HasMemory k₃
    memory n = λ e. t.memory n (ap (λ f. f n) (sym d.mallocs) ∙ e)

    heir : (o : Option Ptr) × OldParent par.parent o × (k₃.pcbs parent ≡ some (heir_of o))
    heir = d.blocks parent (heir_of par.parent) other (ap (λ f. f parent) t.blocks ∙ ground arith)

    runs_parent :
        parent ≡ next
        → (k' : Kernel) × (run_ready starter none k₃ ≡ ok (switched, k'))
          × Handed k parent par zombie next rest k'
    runs_parent same =
        let (o, h, block) = heir in
        let (k', run, p) =
          run_ready-Opened next rest (heir_of o) k₃ ready (ap k₃.pcbs (sym same) ∙ block) memory in
        (
          k',
          run,
          record {
            gone = p.others k.curr (λ e. not_it (sym e)) ∙ d.gone;
            runs = p.runs;
            ready = p.ready;
            grandparent = o;
            old = h;
            alive =
                ap k'.pcbs same
                ∙ p.block
                ∙ ap (λ c. some (record (heir_of o) { kctxt = c }))
                    (ap (λ c. some (context_of c)) w.saved ∙ sym w.saved);
          },
        )

    runs_other :
        parent ≢ next
        → (k' : Kernel) × (run_ready starter none k₃ ≡ ok (switched, k'))
          × Handed k parent par zombie next rest k'
    runs_other differ =
        let (o, h, block) = heir in
        let (o', h', b) =
          d.blocks next nb not_it (ap (λ f. f next) t.blocks ∙ ground (arith, differ, there)) in
        let (k', run, p) = run_ready-Opened next rest _ k₃ ready b memory in
        (
          k',
          run,
          record {
            gone = p.others k.curr (λ e. not_it (sym e)) ∙ d.gone;
            runs = p.runs;
            ready = p.ready;
            grandparent = o;
            old = h;
            alive = p.others parent differ ∙ block;
          },
        )

    switched_on :
        (k' : Kernel) × (run_ready starter none k₃ ≡ ok (switched, k'))
        × Handed k parent par zombie next rest k'
    switched_on = elim (Bool-cases (parent == next)) [
      | inl same ↦ runs_parent ((==_iff parent next).0 same)
      | inr miss ↦ runs_other (λ e. ground (arith, e, miss))
    ]

  told_stay : (k₁ : Kernel) → Told k parent par zombie q k₁ → StayAlive k k₁
  told_stay k₁ t x b e = elim (Bool-cases (x == parent)) [
    | inl same ↦ (heir_of par.parent, ap (λ f. f x) t.blocks ∙ rw same refl)
    | inr miss ↦ (b, ap (λ f. f x) t.blocks ∙ rw miss e)
  ]

  -- `exitProcess` in a child whose parent, another process, is blocked and has a saved context,
  -- with a valid map of blocked processes that holds the parent, a ready queue, memory, every
  -- child of the process there, and a process other than itself that will be the oldest ready one:
  -- it switches to that one; the block of the child is gone, the parent has become the youngest
  -- ready process, and its block has the number and the status of the child behind the zombies
  -- that it had, and else differs at most in that its own parent may be gone.
  pub exit_process-Handed :
      (k' : Kernel) × (exit_process status k ≡ ok (switched, k'))
      × Handed k parent par zombie next rest k'
  unfolding exit_process tell_parent
  exit_process-Handed =
      let (k₁, run₁, t) = leave_zombie-Told pcb status k parent par q w in
      let me : k₁.pcbs k.curr ≡ some pcb =
        ap (λ f. f k.curr) t.blocks ∙ ground (arith, other, at) in
      let (k₂, run₂, o) =
        children-Orphaned pcb.children k₁
          (ChildrenAlive-stay pcb.children k k₁ (told_stay k₁ t) kids) in
      let (k₃, run₃, d) = delete_process-Ended k.curr pcb k₁ k₂ me o in
      let (k', run, h) = switched_on k₁ k₃ t d in
      (k', ground (arith, at, child, run₁, me, run₂, run₃, run), h)
