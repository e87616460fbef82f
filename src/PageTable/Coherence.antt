-- ===== src/PageTable/Coherence.antt =====
-- The TLB against the page tables in memory.
use yallnix.Prelude.{
  ℕ, ◌*◌, ◌^◌, ◌<◌, ◌≡◌, ◌≢◌, Bool, true, false, some, ◌==◌, if◌then◌else◌, arith,
}
use yallnix.Hardware.{Hardware}
use yallnix.PageTable.{
  Prot, Pte, Mmu, set_page_table_entry_no_flush, flush, set_page_table_entry,
  invalidate_page_table_entry,
}
use yallnix.PageTable.Address.{
  pte_addr, Layout, pow_pos, mul_cancel, get_virtual_addr-pte_addr, pte_addr-injective,
}

-- Whatever the TLB holds for a page is the entry in memory.
abbrev pub IsCoherent : Hardware → ℕ → Mmu → Type 0
IsCoherent hw pte_size m =
    (vpn : ℕ) (e : Pte)
    → vpn < 2 * hw.max_pt_len
    → m.tlb (vpn * 2 ^ hw.page_shift) ≡ some e
    → m.ptes (pte_addr hw pte_size m vpn) ≡ e

module _ (hw : Hardware) (pte_size : ℕ) (m : Mmu) (l : Layout hw pte_size m) where
  -- The memory with the entry of one page replaced, and that page flushed.
  abbrev pub replaced : ℕ → Pte → Mmu
  replaced vpn e =
      flush (vpn * 2 ^ hw.page_shift)
        (record m { ptes = λ a. if a == pte_addr hw pte_size m vpn then e else m.ptes a })

  replaced-IsCoherent :
      (vpn : ℕ) (e : Pte)
      → vpn < 2 * hw.max_pt_len
      → IsCoherent hw pte_size m
      → IsCoherent hw pte_size (replaced vpn e)
  unfolding flush
  replaced-IsCoherent vpn e lt c u f lu cached = ground (
    arith,
    c u f,
    pte_addr-injective hw pte_size m l u vpn lu lt,
    mul_cancel u vpn (2 ^ hw.page_shift) (pow_pos hw.page_shift),
  )

  -- `setPageTableEntry` on the entry of a page of either table, where the tables lie apart in
  -- memory, does not halt, writes that entry, and leaves a coherent TLB coherent.
  pub set_page_table_entry-IsCoherent :
      (vpn : ℕ) (valid : Bool) (prot : Prot) (pfn : ℕ)
      → vpn < 2 * hw.max_pt_len
      → IsCoherent hw pte_size m
      → (m' : Mmu) × (set_page_table_entry hw pte_size (pte_addr hw pte_size m vpn) valid prot pfn m
          ≡ some m')
        × (m'.ptes (pte_addr hw pte_size m vpn) ≡ record { valid = valid; prot = prot; pfn = pfn })
        × IsCoherent hw pte_size m'
  unfolding set_page_table_entry
  set_page_table_entry-IsCoherent vpn valid prot pfn lt c = (
    replaced vpn (record { valid = valid; prot = prot; pfn = pfn }),
    ground (arith, get_virtual_addr-pte_addr hw pte_size m l vpn lt),
    ground arith,
    replaced-IsCoherent vpn _ lt c,
  )

  -- So does `invalidatePageTableEntry` once virtual memory is enabled.
  pub invalidate_page_table_entry-IsCoherent :
      (vpn : ℕ)
      → vpn < 2 * hw.max_pt_len
      → m.vm_enable ≡ true
      → IsCoherent hw pte_size m
      → (m' : Mmu) × (invalidate_page_table_entry hw pte_size (pte_addr hw pte_size m vpn) m
          ≡ some m')
        × ((m'.ptes (pte_addr hw pte_size m vpn)).valid ≡ false)
        × IsCoherent hw pte_size m'
  unfolding invalidate_page_table_entry
  invalidate_page_table_entry-IsCoherent vpn lt on c = (
    replaced vpn (record (m.ptes (pte_addr hw pte_size m vpn)) { valid = false }),
    ground (arith, get_virtual_addr-pte_addr hw pte_size m l vpn lt, on),
    ground arith,
    replaced-IsCoherent vpn _ lt c,
  )

  -- Where the tables lie apart in memory, `setPageTableEntryNoFlush` leaves a TLB incoherent that
  -- holds the page with an entry other than the new one.
  pub no_flush_stale :
      (vpn : ℕ) (valid : Bool) (prot : Prot) (pfn : ℕ) (e : Pte)
      → vpn < 2 * hw.max_pt_len
      → m.tlb (vpn * 2 ^ hw.page_shift) ≡ some e
      → record { valid = valid; prot = prot; pfn = pfn } ≢ e
      → ¬ IsCoherent hw pte_size
          (set_page_table_entry_no_flush (pte_addr hw pte_size m vpn) valid prot pfn m)
  unfolding set_page_table_entry_no_flush
  no_flush_stale vpn valid prot pfn e lt cached new c = new (ground (arith, c vpn e lt cached))
