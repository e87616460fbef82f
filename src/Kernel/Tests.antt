-- ===== src/Kernel/Tests.antt =====
-- Context switches from the state of Kernel.Sample.
use yallnix.Prelude.{refl, some, [], ◌∷◌}
use yallnix.Kernel.{Kernel, trap, fork, set_pcb}
use yallnix.Kernel.Switch.{switch_between, run_next}
use yallnix.Kernel.Current.{Switched, switch_between-Switched}
use yallnix.Kernel.Sample.{pcb, sample}

-- Process 2 runs, and process 1 has its context saved.
abbrev running_two : Kernel
running_two = record (set_pcb 10 (pcb 1 trap) sample) { curr = 20; stack_map = 2 ∷ []; ptbr1 = 20 }

switch_between-Switched_example : Switched 20 sample running_two
unfolding switch_between run_next
switch_between-Switched_example = switch_between-Switched trap (some 10) 20 sample running_two refl

-- Process 2 runs with the context that process 1 saved.
abbrev forked : Kernel
forked = record (set_pcb 20 (pcb 2 (fork 10 20)) (set_pcb 10 (pcb 1 (fork 10 20)) sample)) {
  curr = 20;
  stack_map = 2 ∷ [];
  ptbr1 = 20;
}
