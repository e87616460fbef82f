-- ===== src/Boot.antt =====
-- SetKernelData of Kernel.c, and the page table of region 0 that KernelStart fills before virtual memory
-- is on; Start is the rest of it. VMEM_BASE is where region 0 begins.
pub mod Mapping
pub mod Halting
pub mod Start
mod Tests
use yallnix.Prelude.{
  ℕ, zero, suc, ◌+◌, Bool, true, false, Option, none, some, List, [], ◌∷◌, Run, ok, fault, ◌>>=◌,
  ltb, leb, if◌then◌else◌,
}
use yallnix.Hardware.{Hardware, page_size, page_of}
use yallnix.PageTable.{Pte, Prot, read_write}

-- The globals of Kernel.c: the bounds of the kernel's data, and its break.
pub record KernelData : Type 0 where
  pub data_start : ℕ
  pub data_end : ℕ
  pub brk : ℕ

-- Called before KernelStart. `data_end` is the lowest address that is not in use.
unfoldable pub set_kernel_data : ℕ → ℕ → KernelData
set_kernel_data data_start data_end = record {
  data_start = data_start;
  data_end = data_end;
  brk = data_end;
}

abbrev read_exec : Prot
read_exec = record { read = true; write = false; exec = true }

-- The protection of the page at an address; `none` is a page that is not used.
unfoldable pub boot_prot : Hardware → ℕ → ℕ → ℕ → Option Prot
boot_prot hw data_start brk addr =
    if leb (addr + page_size hw) data_start
    then some read_exec
    else if leb (addr + page_size hw) brk
    then some read_write
    else if ltb hw.kernel_stack_base (addr + page_size hw)
    then some read_write
    else none

-- One round of the loop, over the entry as it was.
abbrev pub boot_entry : Hardware → ℕ → ℕ → ℕ → Pte → Pte
boot_entry hw data_start brk addr old = elim (boot_prot hw data_start brk addr) [
  | none ↦ old
  | some prot ↦ record { valid = true; prot = prot; pfn = page_of hw addr }
]

-- `n` rounds; an entry outside of the table is a fault.
unfoldable pub boot_table : Hardware → ℕ → ℕ → ℕ → ℕ → List Pte → Run (List Pte)
boot_table hw data_start brk zero addr table = ok table
boot_table hw data_start brk (suc n) addr [] = elim (boot_prot hw data_start brk addr) [
  | none ↦ boot_table hw data_start brk n (addr + page_size hw) []
  | some prot ↦ fault
]
boot_table hw data_start brk (suc n) addr (e ∷ table) = do
  rest ← boot_table hw data_start brk n (addr + page_size hw) table
  ok (boot_entry hw data_start brk addr e ∷ rest)
