-- ===== src/Kernel/Switch.antt =====
-- The context switches of KernelDataStructures/Scheduler/Scheduler.c. KernelContextSwitch is a call of
-- the hardware library: it saves the caller's context, runs the function that it is given, and goes on
-- in the context that this returns; when the caller's context is chosen again it returns 0 there. The
-- contents of the kernel stacks are part of the saved contexts.
use yallnix.Prelude.{
  Option, none, some, Run, ok, fault, ◌>>=◌, deref, Ptr, null, ◌==◌, if◌then◌else◌,
}
use yallnix.Kernel.{Kernel, Pcb, Resume, starter, Step, switched, yields, set_pcb, fresh, took}

-- `memmove(p->kctxt, currKctxt, …)`: the saved context must have been allocated.
abbrev pub save_context : Resume → Ptr → Kernel → Run Kernel
save_context here p k = do
  pcb ← deref (k.pcbs p)
  old ← deref pcb.kctxt
  ok (set_pcb p (record pcb { kctxt = some here }) k)

-- A process without a context gets the starter's; `malloc`'s answer is not checked.
abbrev pub start_context : Ptr → Pcb → Kernel → Run Kernel
start_context next pcb k = elim pcb.kctxt [
  | none ↦
      if fresh k == null
      then fault
      else ok (set_pcb next (record pcb { kctxt = some starter }) (took k))
  | some c ↦ ok k
]

-- The second half of `switchBetween`: the kernel stack and region 1 of the process that runs next.
unfoldable pub run_next : Ptr → Kernel → Run Kernel
run_next next k = do
  pcb ← deref (k.pcbs next)
  k₁ ← start_context next pcb (record k { curr = next; stack_map = pcb.stack_pfns })
  ok (record k₁ { ptbr1 = next })

unfoldable pub switch_between : Resume → Option Ptr → Ptr → Kernel → Run Kernel
switch_between here none next k = run_next next k
switch_between here (some p) next k = do k₁ ← save_context here p k; run_next next k₁

-- KernelContextSwitch(switchBetween, currPcbP, nextPcbP), from the code that goes on at `here`.
abbrev pub context_switch : Resume → Option Ptr → Ptr → Kernel → Step
context_switch here p next k = do k' ← switch_between here p next k; yields switched k'

-- The second half of `forkTo`.
unfoldable pub run_child : Resume → Ptr → Kernel → Run Kernel
run_child here child k = do
  pcb ← deref (k.pcbs child)
  k₁ ← save_context here child (record k { curr = child; stack_map = pcb.stack_pfns })
  ok (record k₁ { ptbr1 = child })

-- `forkTo`: the context of the parent is saved in both processes, and the child runs.
unfoldable pub fork_to : Resume → Ptr → Kernel → Run Kernel
fork_to here child k = do k₁ ← save_context here k.curr k; run_child here child k₁
