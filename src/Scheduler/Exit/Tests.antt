-- ===== src/Scheduler/Exit/Tests.antt =====
-- `exitProcess` from the states of Kernel.Sample.
use yallnix.Prelude.{◌≡◌, refl, some, [], ◌∷◌, fault, ok, arith}
use yallnix.Prelude.Int.{pos}
use yallnix.Set
use yallnix.Set.{find_loop}
use yallnix.Kernel.{Kernel, trap, wait, switched}
use yallnix.Kernel.Sample.{pcb, one, one-IsValid, waiting_parent, family}
use yallnix.Scheduler.Exit.{exit_process}
use yallnix.Scheduler.Exit.Telling.{Waiting}
use yallnix.Scheduler.Exit.Handover.{Handed, exit_process-Handed}
use yallnix.Scheduler.Exit.Dangling.{exit_process-twice}

family-Waiting : Waiting family 30 waiting_parent (20 ∷ [])
unfolding Set.find find_loop
family-Waiting = record {
  alive = refl;
  blocked = one 3 30;
  is = refl;
  valid = one-IsValid 3 30;
  waits = refl;
  ready = refl;
  memory = λ n. omega arith;
  context = wait 140;
  saved = refl;
}

-- Process 2 runs after process 1, and then process 3, which has been told.
exit_process-Handed_example :
    (k' : Kernel) × (exit_process (pos 7) family ≡ ok (switched, k'))
    × Handed family 30 waiting_parent (record { pid = 1; exit_status = pos 7 }) 20 (30 ∷ []) k'
exit_process-Handed_example =
    exit_process-Handed (pos 7) family (record (pcb 1 trap) { parent = some 30 }) 30 waiting_parent
      (20 ∷ []) 20 (30 ∷ []) (pcb 2 trap) family-Waiting refl refl (omega arith) tt refl refl
      (omega arith)

-- Process 3 has been told of its child and runs; when it exits, it goes to the child's block.
abbrev alone : Kernel
alone = record family { ready_q = some [] }

alone-Waiting : Waiting alone 30 waiting_parent []
unfolding Set.find find_loop
alone-Waiting = record {
  alive = refl;
  blocked = one 3 30;
  is = refl;
  valid = one-IsValid 3 30;
  waits = refl;
  ready = refl;
  memory = λ n. omega arith;
  context = wait 140;
  saved = refl;
}

exit_process-twice_example :
    (k' : Kernel) × (exit_process (pos 7) alone ≡ ok (switched, k'))
    × (k'.curr ≡ 30)
    × (exit_process (pos 0) k' ≡ fault)
unfolding Set.find find_loop
exit_process-twice_example =
    exit_process-twice (pos 7) (pos 0) alone (record (pcb 1 trap) { parent = some 30 }) 30
      waiting_parent (one 1 10) alone-Waiting refl refl (omega arith) tt refl refl ((refl, tt), tt)
      refl
