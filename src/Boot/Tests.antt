-- ===== src/Boot/Tests.antt =====
-- The machine of Brk.Sample, with the break moved from page 3 to page 4 while the frame list is made.
use yallnix.Prelude.{◌≡◌, refl, true, some, ok, success, List, arith, replicate}
use yallnix.FrameList.{Frame, init_frame_list}
use yallnix.PageTable.{Pte}
use yallnix.Brk.Sample.{machine}
use yallnix.Boot.{boot_table}
use yallnix.Boot.Mapping.{blank, Recorded, boot_table-Recorded}

boot_table-Recorded_example :
    (fs : List Frame) × (table : List Pte) × (init_frame_list machine true 6 48
      ≡ (success, some fs))
    × (boot_table machine 32 64 8 0 (replicate 8 blank) ≡ ok table)
    × Recorded machine 3 48 64 fs table
boot_table-Recorded_example =
    boot_table-Recorded machine 8 0 3 4 6 32 6 3
      (record {
        base = refl;
        stack = refl;
        limit = omega arith;
        data_below = omega arith;
        not_less = omega arith;
      })
      (omega arith) (omega arith)
