-- ===== src/Traps.antt =====
-- The traps of TrapHandlers/TrapHandlers.c that are neither the clock's nor a kernel call: the growth of
-- the user stack, the faults that end a process, and the terminals. `code` is the number ERROR, which
-- the handlers give as the exit status.
pub mod Stack
pub mod Dispatch
mod Tests
use yallnix.Prelude.{
  ℕ, zero, suc, ◌+◌, ◌-◌, Run, ok, ◌>>=◌, deref, leb, if◌then◌else◌, Status, error, success,
  get_elem?,
}
use yallnix.Prelude.Int.{ℤ}
use yallnix.Hardware.{Hardware, page_size, page_of}
use yallnix.Brk.{Memory, validate_page}
use yallnix.Kernel.{
  Kernel, trap, err, val, Step, returned, to_user, switched, halted, yields, set_pcb,
}
use yallnix.KernelCalls.General.{kernel_exit}
use yallnix.Scheduler.Tty.{signal_transmitter}
use yallnix.Terminal.{write_buffer}

-- One round: a page that is not mapped gets a frame.
unfoldable pub stack_page : ℕ → Memory → Run (Status × Memory)
stack_page i mem = do
  e ← deref (get_elem? mem.table i)
  if e.valid then ok (success, mem) else validate_page i mem

-- `n` rounds from the entry `i` downwards.
unfoldable pub grow_stack : ℕ → ℕ → Memory → Run (Status × Memory)
grow_stack zero i mem = ok (success, mem)
grow_stack (suc n) i mem = do
  (st, mem₁) ← stack_page i mem
  elim st [ error ↦ ok (error, mem₁) | success ↦ grow_stack n (i - 1) mem₁ ]

-- The page of the last address of region 1.
abbrev pub top_page : Hardware → ℕ
top_page hw = page_of hw (hw.vmem_1_limit - page_size hw)

unfoldable pub handle_trap_memory : Hardware → ℤ → ℕ → Kernel → Step
handle_trap_memory hw code addr k = do
  pcb ← deref (k.pcbs k.curr)
  if leb (page_of hw addr) (page_of hw pcb.brk + 1) then kernel_exit code k else (do
    (st, mem) ←
        grow_stack (top_page hw + 1 - page_of hw addr) (hw.max_pt_len - 1)
          (record { table = pcb.r1_table; frames = k.frames })
    let k₁ : Kernel =
        set_pcb k.curr (record pcb { r1_table = mem.table }) (record k { frames = mem.frames })
    elim st [ error ↦ kernel_exit code k₁ | success ↦ yields to_user k₁ ])

-- TRAP_ILLEGAL and TRAP_MATH.
abbrev pub handle_trap_illegal : ℤ → Kernel → Step
handle_trap_illegal code k = kernel_exit code k

-- The line is what TtyReceive returns and writes.
unfoldable pub handle_tty_receive : ℕ → ℤ → (ℕ → ℕ) → Kernel → Step
handle_tty_receive tty len content k = do
  (st, k₁) ← write_buffer tty len content k
  elim st [ error ↦ yields halted k₁ | success ↦ yields to_user k₁ ]

unfoldable pub handle_tty_transmit : ℕ → Kernel → Step
handle_tty_transmit tty k = do
  (o, k₁) ← signal_transmitter trap tty k
  elim o [
    | returned rc ↦ elim rc [ err ↦ yields halted k₁ | val n ↦ yields to_user k₁ ]
    | to_user ↦ yields to_user k₁
    | switched ↦ yields switched k₁
    | halted ↦ yields halted k₁
  ]

-- TRAP_DISK and the traps that no handler is for.
abbrev pub handle_nothing : Kernel → Step
handle_nothing k = yields halted k
