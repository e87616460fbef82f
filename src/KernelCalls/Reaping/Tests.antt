-- ===== src/KernelCalls/Reaping/Tests.antt =====
-- A child that exits while its parent waits, from the states of Kernel.Sample.
use yallnix.Prelude.{◌≡◌, refl, some, [], ok, arith}
use yallnix.Prelude.Int.{pos}
use yallnix.Set
use yallnix.Set.{find_loop}
use yallnix.Brk.Sample.{machine}
use yallnix.Kernel.{Kernel, trap, wait, switched}
use yallnix.Kernel.Sample.{pcb, one, one-IsValid, waiting_parent, family}
use yallnix.Scheduler.Exit.{exit_process}
use yallnix.Scheduler.Exit.Telling.{Waiting}
use yallnix.KernelCalls.Reaping.{Reaped, exit_process-resume}

-- No other process is ready.
abbrev alone : Kernel
alone = record family { ready_q = some [] }

alone-Waiting : Waiting alone 30 waiting_parent []
unfolding Set.find find_loop
alone-Waiting = record {
  alive = refl;
  blocked = one 3 30;
  is = refl;
  valid = one-IsValid 3 30;
  waits = refl;
  ready = refl;
  memory = λ n. omega arith;
  context = wait 140;
  saved = refl;
}

exit_process-resume_example :
    (k' : Kernel) × (k'' : Kernel) × (exit_process (pos 7) alone ≡ ok (switched, k'))
    × Reaped machine (pos 7) 1 30 140 k' k''
exit_process-resume_example =
    exit_process-resume machine (pos 7) 140 alone (record (pcb 1 trap) { parent = some 30 }) 30
      waiting_parent alone-Waiting refl refl (omega arith) tt refl refl
