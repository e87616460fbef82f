-- ===== src/Brk/Own.antt =====
-- SetKernelBrk of Kernel.c: the pages of region 0 that each outcome leaves mapped.
use yallnix.Prelude.{
  ℕ, ◌+◌, ◌-◌, ◌<◌, ◌≤◌, ◌≡◌, ◌⊎◌, Bool, true, false, ok, error, success, leb, le→leb,
  if◌then◌else◌, arith, Bool-cases, inl, inr,
}
use yallnix.Hardware.{Hardware, kernel_base_vpn}
use yallnix.FrameList.Alloc.{count_free, free_at}
use yallnix.FrameList.Free.{known}
use yallnix.Brk.{Memory, set_kernel_brk, settle, move_pages}
use yallnix.Brk.Rounding.{page_up, move_pages-between}
use yallnix.Brk.Pages.{mapped, within, Sound, validate_pages-mapped, validate_pages-short}
use yallnix.Brk.Release.{holds, invalidate_pages-mapped}
use yallnix.Brk.Calls.{Covers}

-- The address is above the data of the kernel and below its stack.
abbrev pub InHeap : Hardware → ℕ → ℕ → Type 0
InHeap hw data_end addr = (data_end ≤ addr) × (addr < hw.kernel_stack_base)

-- An address outside of the heap is refused, and nothing changes.
pub set_kernel_brk-refused :
    (hw : Hardware) (data_end : ℕ) (vm : Bool) (addr brk : ℕ) (mem : Memory)
    → (addr < data_end) ⊎ (hw.kernel_stack_base ≤ addr)
    → set_kernel_brk hw data_end vm addr brk mem ≡ ok (error, brk, mem)
unfolding set_kernel_brk
set_kernel_brk-refused hw data_end vm addr brk mem out = ground (arith, out)

-- Before virtual memory is enabled the break moves, and nothing else.
pub set_kernel_brk-early :
    (hw : Hardware) (data_end addr brk : ℕ) (mem : Memory)
    → InHeap hw data_end addr
    → set_kernel_brk hw data_end false addr brk mem ≡ ok (success, addr, mem)
unfolding set_kernel_brk
set_kernel_brk-early hw data_end addr brk mem h = ground arith

set_kernel_brk-settle :
    (hw : Hardware) (data_end addr brk : ℕ) (mem : Memory)
    → InHeap hw data_end addr
    → set_kernel_brk hw data_end true addr brk mem
      ≡ settle addr brk (move_pages hw (kernel_base_vpn hw) addr brk mem)
unfolding set_kernel_brk
set_kernel_brk-settle hw data_end addr brk mem h = ground arith

-- From the page `from` to the page `to` of a table that begins at `base`: each page that is gained
-- takes a free frame, and the frames of those that are lost become free.
pub record Moved (base from to : ℕ) (mem mem' : Memory) : Type 0 where
  pub maps :
      (j : ℕ)
      → mapped j mem' ≡ (
          if within (from - base) (to - from) j
          then true
          else if within (to - base) (from - to) j
          then false
          else mapped j mem)
  pub taken :
      ((from ≤ to)
        × (count_free mem'.frames.array + (to - from) ≡ count_free mem.frames.array)
        × Sound mem')
      ⊎ ((to < from)
          × ((q : ℕ)
              → free_at q mem'.frames.array ≡ (
                  if holds q (to - base) (from - to) mem.table
                  then known q mem.frames.array
                  else free_at q mem.frames.array)))

grows :
    (base from to : ℕ) (mem mem' : Memory)
    → from ≤ to
    → count_free mem'.frames.array + (to - from) ≡ count_free mem.frames.array
    → ((j : ℕ)
        → mapped j mem' ≡ (if within (from - base) (to - from) j then true else mapped j mem))
    → Sound mem'
    → Moved base from to mem mem'
grows base from to mem mem' le less maps s = record {
  maps = λ j. ground (arith, maps j, le);
  taken = inl (le, less, s);
}

-- `SetKernelBrk` with virtual memory enabled, to an address that is not in the data of the kernel
-- and below its stack, with the pages in the table, a sound frame list and a free frame for each
-- page that is gained: it succeeds, and the break is the address; exactly the pages between the
-- two breaks, rounded up, become mapped if it grows, and are no longer mapped if it shrinks; each
-- page that is gained takes one frame and the list stays sound, and exactly the frames of the
-- pages that are lost become free.
pub set_kernel_brk-Moved :
    (hw : Hardware) (data_end addr brk : ℕ) (mem : Memory)
    → InHeap hw data_end addr
    → Covers (kernel_base_vpn hw) (page_up hw brk) (page_up hw addr) mem
    → Covers (kernel_base_vpn hw) (page_up hw addr) (page_up hw brk) mem
    → page_up hw addr - page_up hw brk ≤ count_free mem.frames.array
    → Sound mem
    → (mem' : Memory) × (set_kernel_brk hw data_end true addr brk mem ≡ ok (success, addr, mem'))
      × Moved (kernel_base_vpn hw) (page_up hw brk) (page_up hw addr) mem mem'
set_kernel_brk-Moved hw data_end addr brk mem h up down free s =
    let from = page_up hw brk in
    let to = page_up hw addr in
    let base = kernel_base_vpn hw in
    elim (Bool-cases (leb from to)) [
      | inl more ↦
          let (mem', run, less, maps, s') =
            validate_pages-mapped (to - from) (from - base) mem (omega (arith, up.above, up.upto))
              free s in
          (
            mem',
            rw (
              set_kernel_brk-settle hw data_end addr brk mem h,
              move_pages-between hw base addr brk mem,
              more,
              run,
            ),
            grows base from to mem mem' (ground (arith, more)) less maps s',
          )
      | inr fewer ↦
          let (mem', run, maps, frees) =
            invalidate_pages-mapped (from - to) (to - base) mem
              (omega (arith, down.above, down.upto)) in
          (
            mem',
            rw (
              set_kernel_brk-settle hw data_end addr brk mem h,
              move_pages-between hw base addr brk mem,
              fewer,
              run,
            ),
            record {
              maps = λ j. ground (arith, maps j, fewer);
              taken = inr (ground (arith, fewer), frees);
            },
          )
    ]

-- With fewer free frames than pages that are gained it returns ERROR and keeps the break, but every
-- frame that was free has been taken.
pub set_kernel_brk-short :
    (hw : Hardware) (data_end addr brk : ℕ) (mem : Memory)
    → InHeap hw data_end addr
    → Covers (kernel_base_vpn hw) (page_up hw brk) (page_up hw addr) mem
    → count_free mem.frames.array < page_up hw addr - page_up hw brk
    → Sound mem
    → (mem' : Memory) × (set_kernel_brk hw data_end true addr brk mem ≡ ok (error, brk, mem'))
      × (count_free mem'.frames.array ≡ 0)
set_kernel_brk-short hw data_end addr brk mem h c short s =
    let le : page_up hw brk ≤ page_up hw addr = omega arith in
    let (mem', run, gone) =
      validate_pages-short (page_up hw addr - page_up hw brk) (page_up hw brk - kernel_base_vpn hw)
        mem (omega (arith, c.above, c.upto)) short s in
    (
      mem',
      rw (
        set_kernel_brk-settle hw data_end addr brk mem h,
        move_pages-between hw (kernel_base_vpn hw) addr brk mem,
        le→leb _ _ le,
        run,
      ),
      gone,
    )
