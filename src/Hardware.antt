-- ===== src/Hardware.antt =====
-- The constants of hardware.h that the kernel is built with, and what the kernel relies on of them.
-- `x >> PAGESHIFT` is a division by the page size, and DOWN_TO_PAGE clears the bits below it.
use yallnix.Prelude.{ℕ, ◌*◌, ◌/◌, ◌^◌}

pub record Hardware : Type 0 where
  pub page_shift : ℕ
  pub pmem_base : ℕ
  pub vmem_0_base : ℕ
  pub vmem_0_limit : ℕ
  pub vmem_1_base : ℕ
  pub vmem_1_limit : ℕ
  pub kernel_stack_base : ℕ
  pub kernel_stack_limit : ℕ
  pub max_pt_len : ℕ

abbrev pub page_size : Hardware → ℕ
page_size hw = 2 ^ hw.page_shift

abbrev pub page_of : Hardware → ℕ → ℕ
page_of hw addr = addr / 2 ^ hw.page_shift

abbrev pub down_to_page : Hardware → ℕ → ℕ
down_to_page hw addr = addr / 2 ^ hw.page_shift * 2 ^ hw.page_shift

-- KERNEL_BASE_VPN and USER_BASE_VPN of Kernel.h.
abbrev pub kernel_base_vpn : Hardware → ℕ
kernel_base_vpn hw = page_of hw hw.vmem_0_base

abbrev pub user_base_vpn : Hardware → ℕ
user_base_vpn hw = page_of hw hw.vmem_1_base
