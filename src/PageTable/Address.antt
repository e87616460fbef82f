-- ===== src/PageTable/Address.antt =====
-- The entry of a page and the page of an entry.
use native.Mathlib.Nat.{one-le-pow}
use yallnix.Prelude.{
  ℕ, ◌+◌, ◌-◌, ◌*◌, ◌/◌, ◌%◌, ◌^◌, ◌≤◌, ◌<◌, ◌≡◌, some, Ptr, ltb, if◌then◌else◌, arith, ◌⊎◌,
}
use yallnix.Hardware.{Hardware}
use yallnix.PageTable.{Mmu, get_virtual_addr}

-- The address of the entry that maps a page: pages of region 0 come first.
abbrev pub pte_addr : Hardware → ℕ → Mmu → ℕ → Ptr
pte_addr hw pte_size m vpn =
    if ltb vpn hw.max_pt_len
    then m.ptbr0 + vpn * pte_size
    else m.ptbr1 + (vpn - hw.max_pt_len) * pte_size

-- The two tables are apart, whole, and inside the 32-bit address space, and so are the pages.
pub record Layout (hw : Hardware) (pte_size : ℕ) (m : Mmu) : Type 0 where
  pub sized : 0 < pte_size
  pub ptlr0 : m.ptlr0 ≡ hw.max_pt_len
  pub ptlr1 : m.ptlr1 ≡ hw.max_pt_len
  pub in0 : m.ptbr0 + hw.max_pt_len * pte_size < 2 ^ 32
  pub in1 : m.ptbr1 + hw.max_pt_len * pte_size < 2 ^ 32
  pub pages : 2 * hw.max_pt_len * 2 ^ hw.page_shift ≤ 2 ^ 32
  pub apart :
      (m.ptbr0 + hw.max_pt_len * pte_size ≤ m.ptbr1)
      ⊎ (m.ptbr1 + hw.max_pt_len * pte_size ≤ m.ptbr0)

pub mul_lt : (a b c : ℕ) → 0 < c → a < b → a * c < b * c
mul_lt a b c p lt = grind arith

pub mul_cancel : (a b c : ℕ) → 0 < c → a * c ≡ b * c → a ≡ b
mul_cancel a b c p e = grind (arith, mul_lt a b c p, mul_lt b a c p)

pub mul-div : (a c : ℕ) → 0 < c → a * c / c ≡ a
mul-div a c p = grind arith

pub pow_pos : (n : ℕ) → 0 < 2 ^ n
pow_pos n = one-le-pow n 2 (omega arith)

module _ (hw : Hardware) (pte_size : ℕ) (m : Mmu) (l : Layout hw pte_size m) where
  limit0 : (m.ptbr0 + m.ptlr0 * pte_size) % 2 ^ 32 ≡ m.ptbr0 + hw.max_pt_len * pte_size
  limit0 = rw l.ptlr0 (omega (arith, l.in0))

  limit1 : (m.ptbr1 + m.ptlr1 * pte_size) % 2 ^ 32 ≡ m.ptbr1 + hw.max_pt_len * pte_size
  limit1 = rw l.ptlr1 (omega (arith, l.in1))

  page_fits : (vpn : ℕ) → vpn < 2 * hw.max_pt_len → vpn * 2 ^ hw.page_shift < 2 ^ 32
  page_fits vpn lt = omega (
    arith,
    mul_lt vpn (2 * hw.max_pt_len) (2 ^ hw.page_shift) (pow_pos hw.page_shift) lt,
    l.pages,
  )

  -- Where the tables lie apart in memory, `getVirtualAddr` of the address of the entry of a page
  -- is the address of that page.
  pub get_virtual_addr-pte_addr :
      (vpn : ℕ)
      → vpn < 2 * hw.max_pt_len
      → get_virtual_addr hw pte_size m (pte_addr hw pte_size m vpn) ≡ some (vpn * 2 ^ hw.page_shift)
  unfolding get_virtual_addr
  get_virtual_addr-pte_addr vpn lt = ground (
    arith,
    limit0,
    limit1,
    page_fits vpn lt,
    l.apart,
    mul_lt vpn hw.max_pt_len pte_size l.sized,
    mul_lt (vpn - hw.max_pt_len) hw.max_pt_len pte_size l.sized,
    mul-div vpn pte_size l.sized,
    mul-div (vpn - hw.max_pt_len) pte_size l.sized,
  )

  -- Different pages have different entries.
  pub pte_addr-injective :
      (u v : ℕ)
      → u < 2 * hw.max_pt_len
      → v < 2 * hw.max_pt_len
      → pte_addr hw pte_size m u ≡ pte_addr hw pte_size m v
      → u ≡ v
  pte_addr-injective u v lu lv e = ground (
    arith,
    l.apart,
    mul_lt u hw.max_pt_len pte_size l.sized,
    mul_lt v hw.max_pt_len pte_size l.sized,
    mul_lt (u - hw.max_pt_len) hw.max_pt_len pte_size l.sized,
    mul_lt (v - hw.max_pt_len) hw.max_pt_len pte_size l.sized,
    mul_cancel u v pte_size l.sized,
    mul_cancel (u - hw.max_pt_len) (v - hw.max_pt_len) pte_size l.sized,
  )
