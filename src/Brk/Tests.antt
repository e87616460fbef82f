-- ===== src/Brk/Tests.antt =====
-- The break of a process with eight pages, of which the first two are mapped.
use yallnix.Prelude.{ℕ, ◌+◌, ◌≡◌, true, false, ok, success, arith, if◌then◌else◌}
use yallnix.FrameList.Alloc.{free_at, count_free}
use yallnix.FrameList.Free.{known}
use yallnix.Brk.{Memory, kernel_brk, set_kernel_brk}
use yallnix.Brk.Sample.{machine, memory, memory-Sound}
use yallnix.Brk.Rounding.{page_up}
use yallnix.Brk.Pages.{Sound, mapped, within}
use yallnix.Brk.Release.{holds}
use yallnix.Brk.Calls.{kernel_brk-grow, kernel_brk-shrink}
use yallnix.Brk.Own.{Moved, set_kernel_brk-Moved}

-- From page 10 to page 12: both frames that are free are taken.
kernel_brk-grow_example :
    (mem' : Memory) × (kernel_brk machine 185 160 memory ≡ ok (success, 185, mem'))
    × (count_free mem'.frames.array + 2 ≡ 2)
    × ((j : ℕ) → mapped j mem' ≡ (if within 2 2 j then true else mapped j memory))
    × Sound mem'
unfolding page_up
kernel_brk-grow_example =
    kernel_brk-grow machine 185 160 memory (omega arith, omega arith) (omega arith)
      (record { above = omega arith; upto = omega arith }) (omega arith) memory-Sound

-- From page 10 back to page 9: the second page goes.
kernel_brk-shrink_example :
    (mem' : Memory) × (kernel_brk machine 140 160 memory ≡ ok (success, 140, mem'))
    × ((j : ℕ) → mapped j mem' ≡ (if within 1 1 j then false else mapped j memory))
    × ((q : ℕ)
        → free_at q mem'.frames.array ≡ (
            if holds q 1 1 memory.table
            then known q memory.frames.array
            else free_at q memory.frames.array))
unfolding page_up
kernel_brk-shrink_example =
    kernel_brk-shrink machine 140 160 memory (omega arith, omega arith) (omega arith)
      (record { above = omega arith; upto = omega arith })

-- The same table as region 0, from page 0 on: the break goes back from page 2 to page 1.
set_kernel_brk-Moved_example :
    (mem' : Memory) × (set_kernel_brk machine 16 true 16 32 memory ≡ ok (success, 16, mem'))
    × Moved 0 2 1 memory mem'
unfolding page_up
set_kernel_brk-Moved_example =
    set_kernel_brk-Moved machine 16 16 32 memory (omega arith, omega arith)
      (record { above = omega arith; upto = omega arith })
      (record { above = omega arith; upto = omega arith }) (omega arith) memory-Sound
