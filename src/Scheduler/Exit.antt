-- ===== src/Scheduler/Exit.antt =====
-- `exitProcess`, `delete_process` and `removeParent` of Scheduler.c.
pub mod Places
pub mod Orphans
pub mod Telling
pub mod Opening
pub mod Handover
pub mod Dangling
mod Tests
use yallnix.Prelude.{
  ℕ, Option, none, some, List, [], ◌∷◌, Run, ok, fault, ◌>>=◌, deref, Ptr, null, ◌==◌,
  if◌then◌else◌, Status, error, success,
}
use yallnix.Prelude.Int.{ℤ}
use yallnix.HashMap
use yallnix.Fifo
use yallnix.FrameList.{Frames, free_frame}
use yallnix.PageTable.{Pte}
use yallnix.Kernel.{
  Kernel, Pcb, Zombie, starter, err, Step, returned, yields, fresh, took, update, set_pcb,
}
use yallnix.Scheduler.{run_ready, unblock_process}

unfoldable pub remove_parent : ℤ → Ptr → Run Kernel → Run Kernel
remove_parent pid child s = do
  k ← s
  pcb ← deref (k.pcbs child)
  ok (set_pcb child (record pcb { parent = none }) k)

unfoldable pub free_table : List Pte → Frames → Frames
free_table [] fs = fs
free_table (e ∷ table) fs = free_table table (if e.valid then free_frame fs e.pfn else fs)

unfoldable pub free_stack : List ℕ → Frames → Frames
free_stack [] fs = fs
free_stack (pfn ∷ pfns) fs = free_stack pfns (free_frame fs pfn)

-- The frames of region 1 and of the kernel stack are freed, and then the block.
unfoldable pub delete_process : Ptr → Kernel → Run Kernel
unfolding free_table free_stack
delete_process p k = do
  pcb ← deref (k.pcbs p)
  ok (record k {
    pcbs = update k.pcbs p none;
    frames = free_stack pcb.stack_pfns (free_table pcb.r1_table k.frames);
  })

-- The parent's queue of zombies, made if there is none yet.
zombie_queue : Pcb → Kernel → Option (List Zombie) × Kernel
zombie_queue parent k = elim parent.zombie_q [
  | none ↦ (Fifo.new (fresh k), took k)
  | some q ↦ (some q, k)
]

-- What the parent is told. `malloc`'s answer for the zombie is not checked.
pub leave_zombie : Pcb → ℤ → Ptr → Kernel → Run (Status × Kernel)
unfolding zombie_queue
leave_zombie pcb status parent k = do
  par ← deref (k.pcbs parent)
  let made : Option (List Zombie) × Kernel = zombie_queue par k
  let k₁ : Kernel = made.1
  let zombie : Zombie = record { pid = pcb.pid; exit_status = status }
  let r : Status × Option (List Zombie) = Fifo.enq (fresh (took k₁)) zombie made.0
  let k₂ : Kernel = set_pcb parent (record par { zombie_q = r.1 }) (took (took k₁))
  elim made.0 [
    | none ↦ ok (error, k₁)
    | some _ ↦ if fresh k₁ == null then fault else elim r.0 [
      | error ↦ ok (error, k₂)
      | success ↦ do (st, k₃) ← unblock_process par.pid k₂; ok (success, k₃)
    ]
  ]

pub tell_parent : Pcb → ℤ → Kernel → Run (Status × Kernel)
unfolding leave_zombie
tell_parent pcb status k = elim pcb.parent [
  | none ↦ ok (success, k)
  | some parent ↦ leave_zombie pcb status parent k
]

-- The context is not saved: nothing goes on here.
unfoldable pub exit_process : ℤ → Kernel → Step
unfolding tell_parent
exit_process status k = do
  pcb ← deref (k.pcbs k.curr)
  (st, k₁) ← tell_parent pcb status k
  elim st [
    | error ↦ yields (returned err) k₁
    | success ↦ do
      me ← deref (k₁.pcbs k.curr)
      k₂ ← HashMap.iterate (some remove_parent) me.children (ok k₁)
      k₃ ← delete_process k.curr k₂
      run_ready starter none k₃
  ]
