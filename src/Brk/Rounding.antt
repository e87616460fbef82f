-- ===== src/Brk/Rounding.antt =====
-- The page arithmetic of the two calls: the pages below a break are those below the break rounded
-- up, and the loops run from the one break to the other.
use yallnix.Prelude.{
  ℕ, ◌+◌, ◌-◌, ◌*◌, ◌/◌, ◌^◌, ◌<◌, ◌≤◌, ◌≡◌, Run, Status, leb, if◌then◌else◌, arith,
}
use yallnix.Hardware.{Hardware, page_of}
use yallnix.PageTable.Address.{pow_pos}
use yallnix.Brk.{Memory, aligned, validate_pages, invalidate_pages, returned, move_pages}

-- The first page that lies wholly at or above an address.
unfoldable pub page_up : Hardware → ℕ → ℕ
page_up hw addr = if aligned hw addr then page_of hw addr else page_of hw addr + 1

div_mul_le : (a p : ℕ) → 0 < p → a / p * p ≤ a
div_mul_le a p lt = grind arith

div_mono : (a b p : ℕ) → 0 < p → a ≤ b → a / p ≤ b / p
div_mono a b p lt le = grind arith

-- What validating or invalidating between two pages comes to.
abbrev pub between : ℕ → ℕ → ℕ → Memory → Run (Status × Memory)
between base to from mem =
    if leb from to
    then validate_pages (to - from) (from - base) mem
    else returned (invalidate_pages (from - to) (to - base) mem)

-- The three ways in which the code compares the pages of the two breaks are one: it validates the
-- pages from the old break, rounded up, to the new one, or invalidates those in between.
pub move_pages-between :
    (hw : Hardware) (base addr brk : ℕ) (mem : Memory)
    → move_pages hw base addr brk mem ≡ between base (page_up hw addr) (page_up hw brk) mem
unfolding move_pages page_up
move_pages-between hw base addr brk mem = ground (
  arith,
  div_mul_le addr (2 ^ hw.page_shift) (pow_pos hw.page_shift),
  div_mul_le brk (2 ^ hw.page_shift) (pow_pos hw.page_shift),
  div_mono addr brk (2 ^ hw.page_shift) (pow_pos hw.page_shift),
  div_mono brk addr (2 ^ hw.page_shift) (pow_pos hw.page_shift),
)
