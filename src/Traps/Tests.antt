-- ===== src/Traps/Tests.antt =====
-- Faults of process 1 of Kernel.Sample in the region 1 of Brk.Sample.
use yallnix.Prelude.{ℕ, ◌≡◌, refl, true, if◌then◌else◌, ◌⊎◌, ok, arith}
use yallnix.Prelude.Int.{negsuc}
use yallnix.FrameList.Alloc.{count_free}
use yallnix.Brk.{Memory}
use yallnix.Brk.Pages.{mapped, within}
use yallnix.Brk.Sample.{machine, memory, memory-Sound}
use yallnix.Kernel.{Kernel, Pcb, trap, to_user}
use yallnix.Kernel.Sample.{pcb, sample}
use yallnix.KernelCalls.General.{kernel_exit}
use yallnix.Traps.{handle_trap_memory}
use yallnix.Traps.Stack.{Kept, with_memory, handle_trap_memory-maps}

abbrev user : Pcb
user = record (pcb 1 trap) { r1_table = memory.table }

abbrev faulting : Kernel
faulting = with_memory memory user sample

-- The stack grows to the last page.
handle_trap_memory-maps_example :
    (mem : Memory) × (((handle_trap_memory machine (negsuc 0) 240 faulting
          ≡ ok (to_user, with_memory mem user faulting))
        × ((j : ℕ) → mapped j mem ≡ (if within 7 1 j then true else mapped j memory))
        × ((j : ℕ) → Kept (within 7 1 j) memory mem j))
      ⊎ ((handle_trap_memory machine (negsuc 0) 240 faulting
            ≡ kernel_exit (negsuc 0) (with_memory mem user faulting))
          × (count_free mem.frames.array ≡ 0)))
handle_trap_memory-maps_example =
    handle_trap_memory-maps machine (negsuc 0) 240 user faulting
      (record {
        alive = refl;
        sized = refl;
        layout = refl;
        user = omega arith;
        above = omega arith;
        sound = memory-Sound;
      })
      (omega arith)
