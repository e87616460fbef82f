-- ===== src/Boot/Start/Vector.antt =====
-- The interrupt vector that KernelStart of Kernel.c fills.
use yallnix.Prelude.{
  ℕ, zero, suc, ◌+◌, ◌-◌, Option, none, some, List, Run, ok, ◌>>=◌, deref, get_elem?, set,
  replicate,
}

-- The numbers of the traps in hardware.h.
pub record Numbers : Type 0 where
  pub kernel : ℕ
  pub clock : ℕ
  pub illegal : ℕ
  pub memory : ℕ
  pub math : ℕ
  pub tty_receive : ℕ
  pub tty_transmit : ℕ
  pub disk : ℕ
  pub vector_size : ℕ

pub data Handler : Type 0 where
  handle_trap_kernel handle_trap_clock handle_trap_illegal handle_trap_memory : Handler
  handle_trap_math handle_tty_receive handle_tty_transmit handle_trap_disk : Handler
  handle_nothing : Handler

-- A write outside of the array is a fault.
unfoldable pub install : ℕ → Handler → List (Option Handler) → Run (List (Option Handler))
install i h v = do old ← deref (get_elem? v i); ok (set v i (some h))

-- `n` rounds of the loop.
unfoldable pub install_rest : ℕ → ℕ → List (Option Handler) → Run (List (Option Handler))
unfolding install
install_rest zero i v = ok v
install_rest (suc n) i v = do v₁ ← install i handle_nothing v; install_rest n (i + 1) v₁

unfoldable pub interrupt_vector : Numbers → Run (List (Option Handler))
unfolding install install_rest
interrupt_vector t = do
  v₁ ← install t.kernel handle_trap_kernel (replicate t.vector_size none)
  v₂ ← install t.clock handle_trap_clock v₁
  v₃ ← install t.illegal handle_trap_illegal v₂
  v₄ ← install t.memory handle_trap_memory v₃
  v₅ ← install t.math handle_trap_math v₄
  v₆ ← install t.tty_receive handle_tty_receive v₅
  v₇ ← install t.tty_transmit handle_tty_transmit v₆
  v₈ ← install t.disk handle_trap_disk v₇
  install_rest (t.vector_size - (t.disk + 1)) (t.disk + 1) v₈
