-- ===== src/Brk/Sample.antt =====
-- A machine with pages of 16 bytes and eight pages in each region, and a process of which the first two
-- pages are mapped.
use yallnix.Prelude.{refl, ℕ, Bool, true, false, [], ◌∷◌, arith}
use yallnix.Hardware.{Hardware}
use yallnix.FrameList.{Frame}
use yallnix.PageTable.{Pte, read_write, prot_none}
use yallnix.Brk.{Memory}
use yallnix.Brk.Pages.{Sound}

abbrev pub machine : Hardware
machine = record {
  page_shift = 4;
  pmem_base = 0;
  vmem_0_base = 0;
  vmem_0_limit = 128;
  vmem_1_base = 128;
  vmem_1_limit = 256;
  kernel_stack_base = 96;
  kernel_stack_limit = 128;
  max_pt_len = 8;
}

abbrev pub entry : ℕ → Pte
entry p = record { valid = true; prot = read_write; pfn = p }

abbrev pub unmapped : Pte
unmapped = record { valid = false; prot = prot_none; pfn = 0 }

abbrev pub frame : ℕ → Bool → Frame
frame p is_free = record { pfn = p; is_free = is_free }

abbrev pub memory : Memory
memory = record {
  table = entry 4 ∷ entry 5 ∷ unmapped ∷ unmapped ∷ unmapped ∷ unmapped ∷ unmapped ∷ unmapped ∷ [];
  frames = record {
    array = frame 4 false ∷ frame 5 false ∷ frame 6 true ∷ frame 7 true ∷ [];
    past = frame 0 false;
  };
}

pub memory-Sound : Sound memory
memory-Sound = record {
  distinct = (
    (omega arith, (omega arith, (omega arith, tt))),
    ((omega arith, (omega arith, tt)), ((omega arith, tt), (tt, tt))),
  );
  guarded = refl;
}
