-- ===== src/Brk/Calls.antt =====
-- KernelBrk and SetKernelBrk: what each outcome leaves mapped.
use yallnix.Prelude.{
  ℕ, ◌+◌, ◌-◌, ◌<◌, ◌≤◌, ◌≡◌, ◌⊎◌, true, false, ok, error, success, le→leb, lt→leb-false,
  if◌then◌else◌, arith, length,
}
use yallnix.Hardware.{Hardware, user_base_vpn}
use yallnix.FrameList.Alloc.{count_free, free_at}
use yallnix.FrameList.Free.{known}
use yallnix.Brk.{Memory, kernel_brk, settle, move_pages}
use yallnix.Brk.Rounding.{page_up, move_pages-between}
use yallnix.Brk.Pages.{mapped, within, Sound, validate_pages-mapped, validate_pages-short}
use yallnix.Brk.Release.{holds, invalidate_pages-mapped}

-- The address is in region 1.
abbrev pub InUser : Hardware → ℕ → Type 0
InUser hw addr = (hw.vmem_1_base ≤ addr) × (addr < hw.vmem_1_limit)

pub kernel_brk-settle :
    (hw : Hardware) (addr brk : ℕ) (mem : Memory)
    → InUser hw addr
    → kernel_brk hw addr brk mem ≡ settle addr brk (move_pages hw (user_base_vpn hw) addr brk mem)
unfolding kernel_brk
kernel_brk-settle hw addr brk mem u = ground arith

-- The table covers the pages between the two breaks.
pub record Covers (base from to : ℕ) (mem : Memory) : Type 0 where
  pub above : base ≤ from
  pub upto : to ≤ base + length mem.table

-- `KernelBrk` to an address in region 1 that is not below the break when both are rounded up to
-- pages, with the pages in the table, a sound frame list and a free frame for each page in
-- between: it succeeds, the break is the address, exactly the pages in between become mapped, each
-- takes one frame, and the list stays sound.
pub kernel_brk-grow :
    (hw : Hardware) (addr brk : ℕ) (mem : Memory)
    → InUser hw addr
    → page_up hw brk ≤ page_up hw addr
    → Covers (user_base_vpn hw) (page_up hw brk) (page_up hw addr) mem
    → page_up hw addr - page_up hw brk ≤ count_free mem.frames.array
    → Sound mem
    → (mem' : Memory) × (kernel_brk hw addr brk mem ≡ ok (success, addr, mem'))
      × (count_free mem'.frames.array + (page_up hw addr - page_up hw brk)
          ≡ count_free mem.frames.array)
      × ((j : ℕ)
          → mapped j mem' ≡ (
              if within (page_up hw brk - user_base_vpn hw) (page_up hw addr - page_up hw brk) j
              then true
              else mapped j mem))
      × Sound mem'
kernel_brk-grow hw addr brk mem u le c free s =
    let (mem', run, less, maps, s') =
      validate_pages-mapped (page_up hw addr - page_up hw brk) (page_up hw brk - user_base_vpn hw)
        mem (omega (arith, c.above, c.upto)) free s in
    (
      mem',
      rw (
        kernel_brk-settle hw addr brk mem u,
        move_pages-between hw (user_base_vpn hw) addr brk mem,
        le→leb _ _ le,
        run,
      ),
      less,
      maps,
      s',
    )

-- `KernelBrk` to an address in region 1, with the pages in the table, a sound frame list and fewer
-- free frames than pages in between, returns ERROR and keeps the break, but every frame that was
-- free has been taken.
pub kernel_brk-short :
    (hw : Hardware) (addr brk : ℕ) (mem : Memory)
    → InUser hw addr
    → Covers (user_base_vpn hw) (page_up hw brk) (page_up hw addr) mem
    → count_free mem.frames.array < page_up hw addr - page_up hw brk
    → Sound mem
    → (mem' : Memory) × (kernel_brk hw addr brk mem ≡ ok (error, brk, mem'))
      × (count_free mem'.frames.array ≡ 0)
kernel_brk-short hw addr brk mem u c short s =
    let le : page_up hw brk ≤ page_up hw addr = omega arith in
    let (mem', run, gone) =
      validate_pages-short (page_up hw addr - page_up hw brk) (page_up hw brk - user_base_vpn hw)
        mem (omega (arith, c.above, c.upto)) short s in
    (
      mem',
      rw (
        kernel_brk-settle hw addr brk mem u,
        move_pages-between hw (user_base_vpn hw) addr brk mem,
        le→leb _ _ le,
        run,
      ),
      gone,
    )

-- `KernelBrk` to an address in region 1 that is below the break when both are rounded up to pages,
-- with the pages in the table: it succeeds, the break is the address, exactly the pages in between
-- are no longer mapped, and exactly their frames become free.
pub kernel_brk-shrink :
    (hw : Hardware) (addr brk : ℕ) (mem : Memory)
    → InUser hw addr
    → page_up hw addr < page_up hw brk
    → Covers (user_base_vpn hw) (page_up hw addr) (page_up hw brk) mem
    → let first = page_up hw addr - user_base_vpn hw in
      let n = page_up hw brk - page_up hw addr in
      (mem' : Memory) × (kernel_brk hw addr brk mem ≡ ok (success, addr, mem'))
      × ((j : ℕ) → mapped j mem' ≡ (if within first n j then false else mapped j mem))
      × ((q : ℕ)
          → free_at q mem'.frames.array ≡ (
              if holds q first n mem.table
              then known q mem.frames.array
              else free_at q mem.frames.array))
kernel_brk-shrink hw addr brk mem u lt c =
    let (mem', run, maps, frees) =
      invalidate_pages-mapped (page_up hw brk - page_up hw addr)
        (page_up hw addr - user_base_vpn hw) mem (omega (arith, c.above, c.upto)) in
    (
      mem',
      rw (
        kernel_brk-settle hw addr brk mem u,
        move_pages-between hw (user_base_vpn hw) addr brk mem,
        lt→leb-false _ _ lt,
        run,
      ),
      maps,
      frees,
    )

-- An address outside region 1 is refused, and nothing changes.
pub kernel_brk-refused :
    (hw : Hardware) (addr brk : ℕ) (mem : Memory)
    → (addr < hw.vmem_1_base) ⊎ (hw.vmem_1_limit ≤ addr)
    → kernel_brk hw addr brk mem ≡ ok (error, brk, mem)
unfolding kernel_brk
kernel_brk-refused hw addr brk mem out = ground (arith, out)
