-- ===== src/Scheduler/Switching.antt =====
-- `blockProcess` of Scheduler.c where another process is ready.
use yallnix.Prelude.{
  ℕ, ◌≡◌, ◌≢◌, ap, ◌∙◌, none, some, List, ◌∷◌, ok, Ptr, null, if◌then◌else◌, arith,
}
use yallnix.Prelude.Int.{ℤ, pos, eq_ℤ}
use yallnix.HashMap.{HashMap}
use yallnix.HashMap.Buckets.{IsValid}
use yallnix.HashMap.Laws.{view, find-view, insert-view}
use yallnix.Kernel.{Kernel, Resume, switched, fresh, took}
use yallnix.Kernel.Current.{Switched, switch_between-Switched}
use yallnix.Scheduler.{block_process, run_ready}
use yallnix.Scheduler.Rotation.{CanSave, CanRun, switch_between-total}

-- The process that runs can be saved and is not in the valid map of blocked processes, there is
-- memory, and the process that is the oldest ready one can run.
pub record CanBlock (hm : HashMap Ptr) (next : Ptr) (rest : List Ptr) (k : Kernel) : Type 0 where
  pub saves : CanSave k k.curr
  pub blocked : k.blocked ≡ some hm
  pub valid : IsValid hm
  pub absent : view hm (pos saves.pcb.pid) ≡ none
  pub memory : fresh k ≢ null
  pub ready : k.ready_q ≡ some (next ∷ rest)
  pub runs : CanRun (took k) next

-- The next process runs, and the one that ran has been added to the map.
pub record Blocked (hm : HashMap Ptr) (pid : ℕ) (next : Ptr) (rest : List Ptr) (k k' : Kernel)
    : Type 0 where
  pub runs : k'.curr ≡ next
  pub ready : k'.ready_q ≡ some rest
  pub map : HashMap Ptr
  pub valid : IsValid map
  pub is : k'.blocked ≡ some map
  pub views : (j : ℤ) → view map j ≡ (if eq_ℤ (pos pid) j then some k.curr else view hm j)

pub block_process-Blocked :
    (here : Resume) (hm : HashMap Ptr) (next : Ptr) (rest : List Ptr) (k : Kernel)
    (c : CanBlock hm next rest k)
    → (k' : Kernel) × (block_process here k ≡ ok (switched, k'))
      × Blocked hm c.saves.pcb.pid next rest k k'
unfolding block_process run_ready
block_process-Blocked here hm next rest k c =
    let (hm', run, v, size, views) =
      insert-view (pos c.saves.pcb.pid) k.curr hm c.valid tt
        (find-view (pos c.saves.pcb.pid) hm c.valid tt ∙ ap ok c.absent) in
    let k₁ : Kernel = record (took k) { blocked = some hm'; ready_q = some rest } in
    let (k', e) =
      switch_between-total here k.curr next k₁
        (record {
          pcb = c.saves.pcb;
          old = c.saves.old;
          alive = c.saves.alive;
          context = c.saves.context;
        })
        (record { pcb = c.runs.pcb; alive = c.runs.alive; context = c.runs.context }) in
    let sw : Switched next k₁ k' = switch_between-Switched here (some k.curr) next k₁ k' e in
    (
      k',
      ground (arith, c.saves.alive, c.blocked, c.memory, c.ready, run, e),
      record {
        runs = sw.runs;
        ready = ap (λ z. z.ready_q) sw.same;
        map = hm';
        valid = v;
        is = ap (λ z. z.blocked) sw.same;
        views = views;
      },
    )
