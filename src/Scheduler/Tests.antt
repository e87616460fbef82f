-- ===== src/Scheduler/Tests.antt =====
-- The scheduler from the state of Kernel.Sample.
use yallnix.Prelude.{
  true, ◌≡◌, refl, none, some, [], ◌∷◌, ok, Ptr, arith, success, inl, if◌then◌else◌,
}
use yallnix.Prelude.Int.{ℤ, pos, eq_ℤ}
use yallnix.Set
use yallnix.Set.{find_loop, remove_loop}
use yallnix.HashMap.{HashMap}
use yallnix.HashMap.Buckets.{IsValid}
use yallnix.HashMap.Laws.{view}
use yallnix.Kernel.{Kernel, trap, switched, took}
use yallnix.Brk.Sample.{memory, memory-Sound}
use yallnix.FrameList.Alloc.{free_at}
use yallnix.Scheduler.Creation.{init_stack}
use yallnix.Scheduler.Stacks.{init_stack-frees_garbage}
use yallnix.Kernel.Sample.{pcb, one, one-IsValid, sample}
use yallnix.Scheduler.{kick_process, unblock_process}
use yallnix.Scheduler.Rotation.{kick_process-rotates}
use yallnix.Scheduler.Blocking.{unblock_process-ready}

kick_process-rotates_example :
    (k' : Kernel) × (kick_process trap sample ≡ ok (switched, k'))
    × (k'.curr ≡ 20)
    × (k'.ready_q ≡ some (10 ∷ []))
kick_process-rotates_example =
    kick_process-rotates trap sample 20 [] refl (omega arith)
      (record { pcb = pcb 1 trap; old = trap; alive = refl; context = refl })
      (record { pcb = pcb 2 trap; alive = refl; context = inl (trap, refl) })

unblock_process-ready_example :
    (hm' : HashMap Ptr) × (unblock_process 3 sample
      ≡ ok (success, record (took sample) { ready_q = some (20 ∷ 30 ∷ []); blocked = some hm' }))
    × IsValid hm'
    × ((j : ℤ) → view hm' j ≡ (if eq_ℤ (pos 3) j then none else view (one 3 30) j))
unfolding Set.find find_loop
unblock_process-ready_example =
    unblock_process-ready sample 3 30 (one 3 30) (20 ∷ []) refl (one-IsValid 3 30) refl refl
      (omega arith)

-- Two frames are free where a stack needs three, and the third number in the new memory is that of a
-- frame in use.
init_stack-frees_garbage_example :
    (init_stack 3 (0 ∷ 0 ∷ 4 ∷ []) 100 none [] (record sample { frames = memory.frames })).0 ≡ none
    × (free_at 4
          (init_stack 3
            (0 ∷ 0 ∷ 4 ∷ [])
            100
            none
            []
            (record sample { frames = memory.frames })).1.frames.array
        ≡ true)
init_stack-frees_garbage_example =
    init_stack-frees_garbage 3 4 (0 ∷ 0 ∷ 4 ∷ []) 100 none []
      (record sample { frames = memory.frames }) memory-Sound.distinct memory-Sound.guarded
      (omega arith) refl refl
