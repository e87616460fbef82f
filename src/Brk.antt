-- ===== src/Brk.antt =====
-- The two calls that move a break: KernelBrk of KernelCalls/GeneralKernelCalls.c, over the page table
-- of region 1 of the current process, and SetKernelBrk of Kernel.c, over that of region 0. Both work
-- on the table in the MMU's registers; the flushes of the TLB are the subject of PageTable. An entry
-- outside the table is a fault. FrameList is not NULL: the kernel halts at boot if it is.
pub mod Pages
pub mod Entry
pub mod Rounding
pub mod Release
pub mod Calls
pub mod Own
pub mod Sample
mod Tests
use yallnix.Prelude.{
  ℕ, zero, suc, ◌+◌, ◌-◌, ◌*◌, ◌/◌, ◌^◌, Bool, true, false, ◌&&◌, Option, none, some, List, [], ◌∷◌,
  Run, ok, fault, ◌>>=◌, deref, Status, error, success, ltb, leb, ◌==◌, if◌then◌else◌, get_elem?,
  set,
}
use yallnix.Hardware.{Hardware, page_of, down_to_page, kernel_base_vpn, user_base_vpn}
use yallnix.FrameList.{Frames, get_frame_loop, free_frame}
use yallnix.PageTable.{Pte, Prot, read_write, get_address_region}

-- The page table that a break is moved over, and the frame list.
pub record Memory : Type 0 where
  pub table : List Pte
  pub frames : Frames

-- Where the entry is in the table.
abbrev pub write_pte : ℕ → Pte → Memory → Run Memory
write_pte i e mem = do
  old ← deref (get_elem? mem.table i)
  ok (record mem { table = set mem.table i e })

-- One round of the loop that validates pages.
unfoldable pub validate_page : ℕ → Memory → Run (Status × Memory)
unfolding get_frame_loop
validate_page i mem =
    let (got, array, past) = get_frame_loop mem.frames.array mem.frames.past in
    let mem₁ : Memory = record mem { frames = record { array = array; past = past } } in
    elim got [
      | none ↦ ok (error, mem₁)
      | some pfn ↦ do
        mem₂ ← write_pte i (record { valid = true; prot = read_write; pfn = pfn }) mem₁
        ok (success, mem₂)
    ]

-- `n` rounds of it from the entry `i` on.
unfoldable pub validate_pages : ℕ → ℕ → Memory → Run (Status × Memory)
unfolding validate_page
validate_pages zero i mem = ok (success, mem)
validate_pages (suc n) i mem = do
  (st, mem₁) ← validate_page i mem
  elim st [ error ↦ ok (error, mem₁) | success ↦ validate_pages n (i + 1) mem₁ ]

-- One round of the loop that invalidates pages.
invalidate_page : ℕ → Memory → Run Memory
invalidate_page i mem = do
  e ← deref (get_elem? mem.table i)
  write_pte i (record e { valid = false }) (record mem { frames = free_frame mem.frames e.pfn })

pub invalidate_pages : ℕ → ℕ → Memory → Run Memory
unfolding invalidate_page
invalidate_pages zero i mem = ok mem
invalidate_pages (suc n) i mem = do mem₁ ← invalidate_page i mem; invalidate_pages n (i + 1) mem₁

-- The addresses are at the beginning of a page.
abbrev pub aligned : Hardware → ℕ → Bool
aligned hw addr = down_to_page hw addr == addr

abbrev pub returned : Run Memory → Run (Status × Memory)
returned r = do mem ← r; ok (success, mem)

-- `base` is the number of the page of the table's first entry; `currVpn` and the last page of each
-- loop give its number of rounds.
pub move_pages : Hardware → ℕ → ℕ → ℕ → Memory → Run (Status × Memory)
unfolding validate_pages invalidate_pages
move_pages hw base addr brk mem =
    let addr_vpn = page_of hw addr in
    let brk_vpn = page_of hw brk in
    if ltb addr_vpn brk_vpn
    then (let curr_vpn = if aligned hw addr then addr_vpn else addr_vpn + 1 in
        let last_vpn = if aligned hw brk then brk_vpn - 1 else brk_vpn in
        returned (invalidate_pages (last_vpn + 1 - curr_vpn) (curr_vpn - base) mem))
    else if addr_vpn == brk_vpn
    then (if ltb addr brk && aligned hw addr
        then returned (invalidate_pages 1 (addr_vpn - base) mem)
        else if ltb brk addr && aligned hw brk
        then validate_pages 1 (addr_vpn - base) mem
        else ok (success, mem))
    else (let curr_vpn = if aligned hw brk then brk_vpn else brk_vpn + 1 in
        let last_vpn = if aligned hw addr then addr_vpn - 1 else addr_vpn in
        validate_pages (last_vpn + 1 - curr_vpn) (curr_vpn - base) mem)

-- The break only moves if the pages could be had.
abbrev pub settle : ℕ → ℕ → Run (Status × Memory) → Run (Status × ℕ × Memory)
settle addr brk r = do
  (st, mem) ← r
  ok (elim st [ error ↦ (error, brk, mem) | success ↦ (success, addr, mem) ])

-- The status, `currPCB->brk` and the memory afterwards.
pub kernel_brk : Hardware → ℕ → ℕ → Memory → Run (Status × ℕ × Memory)
unfolding move_pages get_address_region
kernel_brk hw addr brk mem = elim (get_address_region hw addr) [
  | none ↦ ok (error, brk, mem)
  | some region ↦
      if region == 1
      then settle addr brk (move_pages hw (user_base_vpn hw) addr brk mem)
      else ok (error, brk, mem)
]

-- The same with `currKernelBrk`. Before virtual memory is enabled only the break moves.
pub set_kernel_brk : Hardware → ℕ → Bool → ℕ → ℕ → Memory → Run (Status × ℕ × Memory)
unfolding move_pages
set_kernel_brk hw data_end vm_enable addr brk mem =
    if leb hw.kernel_stack_base addr
    then ok (error, brk, mem)
    else if ltb addr data_end
    then ok (error, brk, mem)
    else if vm_enable
    then settle addr brk (move_pages hw (kernel_base_vpn hw) addr brk mem)
    else ok (success, addr, mem)
