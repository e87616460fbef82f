-- ===== src/PageTable/Tests.antt =====
-- PageTable.c on two tables of eight entries.
use yallnix.Prelude.{◌≡◌, refl, true, false, some, none, arith, if◌then◌else◌, ◌==◌, inl}
use yallnix.Hardware.{Hardware}
use yallnix.PageTable.{Pte, Mmu, prot_none, read_write, set_page_table_entry}
use yallnix.PageTable.Address.{Layout}
use yallnix.PageTable.Coherence.{IsCoherent, set_page_table_entry-IsCoherent}

abbrev machine : Hardware
machine = record {
  page_shift = 4;
  pmem_base = 0;
  vmem_0_base = 0;
  vmem_0_limit = 128;
  vmem_1_base = 128;
  vmem_1_limit = 256;
  kernel_stack_base = 96;
  kernel_stack_limit = 128;
  max_pt_len = 8;
}

abbrev unmapped : Pte
unmapped = record { valid = false; prot = prot_none; pfn = 0 }

-- The TLB holds the entry of page 9, which is at 504.
abbrev mmu : Mmu
mmu = record {
  ptes = λ p. unmapped;
  ptbr0 = 400;
  ptlr0 = 8;
  ptbr1 = 500;
  ptlr1 = 8;
  vm_enable = true;
  tlb = λ a. if a == 144 then some unmapped else none;
}

mmu-Layout : Layout machine 4 mmu
mmu-Layout = record {
  sized = omega arith;
  ptlr0 = refl;
  ptlr1 = refl;
  in0 = omega arith;
  in1 = omega arith;
  pages = omega arith;
  apart = inl (omega arith);
}

mmu-IsCoherent : IsCoherent machine 4 mmu
mmu-IsCoherent vpn e lt cached = ground arith

set_page_table_entry-IsCoherent_example :
    (m' : Mmu) × (set_page_table_entry machine 4 504 true read_write 33 mmu ≡ some m')
    × (m'.ptes 504 ≡ record { valid = true; prot = read_write; pfn = 33 })
    × IsCoherent machine 4 m'
set_page_table_entry-IsCoherent_example =
    set_page_table_entry-IsCoherent machine 4 mmu mmu-Layout 9 true read_write 33 (omega arith)
      mmu-IsCoherent
