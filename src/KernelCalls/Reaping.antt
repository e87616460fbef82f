-- ===== src/KernelCalls/Reaping.antt =====
-- `exitProcess` of Scheduler.c in a child, and then the end of KernelWait in the parent.
mod Tests
use yallnix.Prelude.{
  ℕ, ◌≡◌, ◌≢◌, refl, sym, ap, ◌∙◌, Option, none, some, List, [], ◌∷◌, ◌++◌, ok, Ptr, arith,
}
use yallnix.Prelude.Int.{ℤ}
use yallnix.Hardware.{Hardware}
use yallnix.Kernel.{Kernel, Pcb, Zombie, wait, val, returned, switched}
use yallnix.Scheduler.Exit.{exit_process}
use yallnix.Scheduler.Exit.Orphans.{ChildrenAlive}
use yallnix.Scheduler.Exit.Telling.{listed, Waiting}
use yallnix.Scheduler.Exit.Handover.{exit_process-Handed}
use yallnix.KernelCalls.General.{resume}
use yallnix.KernelCalls.Wait.{collect, collected, collect-oldest}

-- The parent runs, goes on behind `blockProcess` in KernelWait, and has collected the zombie.
pub record Reaped (hw : Hardware) (status : ℤ) (pid : ℕ) (parent : Ptr) (status_ptr : ℕ)
    (k' k'' : Kernel) : Type 0 where
  pub runs : k'.curr ≡ parent
  pub heir : Pcb
  pub alive : k'.pcbs parent ≡ some heir
  pub returns : resume hw k' ≡ ok (returned (val pid), k'')
  pub stored : k''.stored ≡ (parent, status_ptr, status) ∷ k'.stored
  pub none_left : k''.pcbs parent ≡ some (record heir { zombie_q = some [] })

resume-collected :
    (hw : Hardware) (status_ptr : ℕ) (z : Zombie) (pcb : Pcb) (k : Kernel)
    → k.pcbs k.curr ≡ some pcb
    → pcb.kctxt ≡ some (wait status_ptr)
    → pcb.zombie_q ≡ some (z ∷ [])
    → resume hw k ≡ ok (returned (val z.pid), collected status_ptr z [] pcb k)
unfolding resume
resume-collected hw status_ptr z pcb k at here one =
    ground (arith, at, here, collect-oldest status_ptr z [] pcb k at one)

-- `exitProcess` in a child whose parent, another process, is blocked in `KernelWait` with no
-- zombie, while no process is ready: if the map of blocked processes is valid and holds the
-- parent, there is memory, and every child of the process is there, it switches; the parent runs,
-- and its call, when it goes on, returns the number of the child, stores its exit status, and
-- leaves no zombie.
pub exit_process-resume :
    (hw : Hardware) (status : ℤ) (status_ptr : ℕ) (k : Kernel) (pcb : Pcb) (parent : Ptr)
    (par : Pcb)
    → Waiting k parent par []
    → k.pcbs k.curr ≡ some pcb
    → pcb.parent ≡ some parent
    → parent ≢ k.curr
    → ChildrenAlive pcb.children k
    → listed par.zombie_q ≡ []
    → par.kctxt ≡ some (wait status_ptr)
    → (k' : Kernel) × (k'' : Kernel) × (exit_process status k ≡ ok (switched, k'))
      × Reaped hw status pcb.pid parent status_ptr k' k''
exit_process-resume hw status status_ptr k pcb parent par w at child other kids no_zombie waits =
    let z : Zombie = record { pid = pcb.pid; exit_status = status } in
    let (k', run, h) =
      exit_process-Handed status k pcb parent par [] parent [] par w at child other kids refl
        w.alive other in
    let heir : Pcb = record par {
      zombie_q = some (listed par.zombie_q ++ z ∷ []);
      parent = h.grandparent;
    } in
    (
      k',
      collected status_ptr z [] heir k',
      run,
      record {
        runs = h.runs;
        heir = heir;
        alive = h.alive;
        returns =
            resume-collected hw status_ptr z heir k' (ap k'.pcbs h.runs ∙ h.alive) waits
              (ap (λ l. some (l ++ z ∷ [])) no_zombie);
        stored = ap (λ c. (c, status_ptr, status) ∷ k'.stored) h.runs;
        none_left = ground (arith, h.runs);
      },
    )
