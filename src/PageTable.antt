-- ===== src/PageTable.antt =====
-- KernelDataStructures/PageTable/PageTable.c. Page table entries lie in memory, at addresses
-- `pte_size` bytes apart; the MMU's registers say where the tables of the two regions begin and how
-- many entries they have, and its TLB caches entries by page address. Addresses are unsigned int.
pub mod Address
pub mod Coherence
mod Tests
use yallnix.Prelude.{
  ℕ, zero, suc, ◌+◌, ◌-◌, ◌*◌, ◌/◌, ◌%◌, ◌^◌, Bool, true, false, ◌&&◌, Option, none, some, List, [],
  ◌∷◌, Ptr, Status, error, success, ltb, leb, ◌==◌, if◌then◌else◌, replicate,
}
use yallnix.Hardware.{Hardware, page_of, kernel_base_vpn, user_base_vpn}

-- The protection bits of hardware.h.
pub record Prot : Type 0 where
  pub read : Bool
  pub write : Bool
  pub exec : Bool

abbrev pub prot_none : Prot
prot_none = record { read = false; write = false; exec = false }

abbrev pub read_write : Prot
read_write = record { read = true; write = true; exec = false }

pub record Pte : Type 0 where
  pub valid : Bool
  pub prot : Prot
  pub pfn : ℕ

pub record Mmu : Type 0 where
  pub ptes : Ptr → Pte
  pub ptbr0 : ℕ
  pub ptlr0 : ℕ
  pub ptbr1 : ℕ
  pub ptlr1 : ℕ
  pub vm_enable : Bool
  pub tlb : ℕ → Option Pte

-- The table that `malloc` made room for, with every entry invalid.
unfoldable pub initialize_region_page_table : Hardware → Bool → Status × Option (List Pte)
initialize_region_page_table hw got =
    if got
    then (
      success,
      some (replicate hw.max_pt_len (record { valid = false; prot = prot_none; pfn = 0 })),
    )
    else (error, none)

-- The page that an entry maps; `none` is ERROR.
unfoldable pub get_virtual_addr : Hardware → ℕ → Mmu → Ptr → Option ℕ
get_virtual_addr hw pte_size m ptep =
    let r0_limit = (m.ptbr0 + m.ptlr0 * pte_size) % 2 ^ 32 in
    let r1_limit = (m.ptbr1 + m.ptlr1 * pte_size) % 2 ^ 32 in
    if leb m.ptbr0 ptep && ltb ptep r0_limit
    then some ((ptep - m.ptbr0) / pte_size * 2 ^ hw.page_shift % 2 ^ 32)
    else if leb m.ptbr1 ptep && ltb ptep r1_limit
    then some (((ptep - m.ptbr1) / pte_size + hw.max_pt_len) * 2 ^ hw.page_shift % 2 ^ 32)
    else none

unfoldable pub set_page_table_entry_no_flush : Ptr → Bool → Prot → ℕ → Mmu → Mmu
set_page_table_entry_no_flush ptep valid prot pfn m = record m {
  ptes = λ a. if a == ptep then record { valid = valid; prot = prot; pfn = pfn } else m.ptes a;
}

-- `WriteRegister(REG_TLB_FLUSH, addr)`.
unfoldable pub flush : ℕ → Mmu → Mmu
flush addr m = record m { tlb = λ a. if a == addr then none else m.tlb a }

-- `none` is Halt().
unfoldable pub set_page_table_entry : Hardware → ℕ → Ptr → Bool → Prot → ℕ → Mmu → Option Mmu
unfolding set_page_table_entry_no_flush get_virtual_addr flush
set_page_table_entry hw pte_size ptep valid prot pfn m =
    let m₁ : Mmu = set_page_table_entry_no_flush ptep valid prot pfn m in
    elim (get_virtual_addr hw pte_size m₁ ptep) [ none ↦ none | some addr ↦ some (flush addr m₁) ]

unfoldable pub invalidate_page_table_entry : Hardware → ℕ → Ptr → Mmu → Option Mmu
unfolding get_virtual_addr flush
invalidate_page_table_entry hw pte_size ptep m =
    let m₁ : Mmu = record m {
      ptes = λ a. if a == ptep then record (m.ptes ptep) { valid = false } else m.ptes a;
    } in
    if m.vm_enable
    then elim (get_virtual_addr hw pte_size m₁ ptep) [
      | none ↦ none
      | some addr ↦ some (flush addr m₁)
    ]
    else some m₁

-- The region of an address; `none` is -1.
unfoldable pub get_address_region : Hardware → ℕ → Option ℕ
get_address_region hw addr =
    if leb hw.vmem_1_base addr && ltb addr hw.vmem_1_limit
    then some 1
    else if leb hw.vmem_0_base addr && ltb addr hw.vmem_0_limit
    then some 0
    else none

-- `ptBase + addrVpn - baseVpn`, and the bits of the entry there; `none` is ERROR.
unfoldable pub get_address_prot : Hardware → ℕ → Mmu → ℕ → Option ℕ → Option Prot
get_address_prot hw pte_size m addr none = none
get_address_prot hw pte_size m addr (some region) =
    if region == 0
    then some (m.ptes (m.ptbr0 + page_of hw addr * pte_size - kernel_base_vpn hw * pte_size)).prot
    else if region == 1
    then some (m.ptes (m.ptbr1 + page_of hw addr * pte_size - user_base_vpn hw * pte_size)).prot
    else none
