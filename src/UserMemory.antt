-- ===== src/UserMemory.antt =====
-- `isValidBuffer` and `isValidString` of KernelCalls/GeneralKernelCalls.c. The tables are those that the
-- registers PTBR0 and PTBR1 point to; an entry outside of them is a fault, and so is a read at an
-- address of `mem` that is not mapped. NULL is 0.
pub mod Buffers
pub mod Strings
mod Tests
use yallnix.Prelude.{
  ℕ, zero, suc, ◌+◌, ◌-◌, ◌*◌, Bool, true, false, not, ◌&&◌, ◌||◌, Option, none, some, List, Run,
  ok, fault, ◌>>=◌, deref, null, ltb, leb, ◌==◌, if◌then◌else◌, get_elem?,
}
use yallnix.Prelude.Int.{ℤ, pos, negsuc}
use yallnix.Hardware.{Hardware, page_size, page_of, down_to_page, kernel_base_vpn, user_base_vpn}
use yallnix.PageTable.{Pte, Prot}

-- `(p & prot) == prot`.
abbrev pub includes : Prot → Prot → Bool
includes p prot =
    (not prot.read || p.read) && ((not prot.write || p.write) && (not prot.exec || p.exec))

-- A page that may be used.
abbrev pub grants : Prot → Pte → Bool
grants prot e = e.valid && includes e.prot prot

-- The two page tables.
pub record Tables : Type 0 where
  pub region0 : List Pte
  pub region1 : List Pte

-- The table of a page, the index of the page in it, and `maxVpn`; `none` is an address outside of both
-- regions.
abbrev pub table_of : Hardware → Tables → ℕ → Option (List Pte × ℕ × ℕ)
table_of hw t vpn =
    if ltb vpn hw.max_pt_len
    then some (t.region0, vpn - kernel_base_vpn hw, hw.max_pt_len)
    else if ltb vpn (hw.max_pt_len * 2)
    then some (t.region1, vpn - user_base_vpn hw, hw.max_pt_len * 2)
    else none

-- The loop over the pages: `f` is at least the length that is left.
unfoldable pub buffer_loop : ℕ → ℕ → Prot → List Pte → ℕ → ℕ → Run Bool
buffer_loop f size prot table i zero = ok true
buffer_loop zero size prot table i (suc len) = fault
buffer_loop (suc f) size prot table i (suc len) = do
  e ← deref (get_elem? table i)
  elim (grants prot e) [
    | true ↦ buffer_loop f size prot table (i + 1) (suc len - size)
    | false ↦ ok false
  ]

unfoldable pub is_valid_buffer : Hardware → Tables → ℕ → ℤ → Prot → Run Bool
is_valid_buffer hw t buffer (negsuc len) prot = ok (not (buffer == null))
is_valid_buffer hw t buffer (pos zero) prot = ok (not (buffer == null))
is_valid_buffer hw t buffer (pos (suc len)) prot =
    if buffer == null then ok false else elim (table_of hw t (page_of hw buffer)) [
      | none ↦ ok false
      | some (table, i, max) ↦ buffer_loop (suc len) (page_size hw) prot table i (suc len)
    ]

-- The inner loop: whether there is a NUL among the next `n` characters.
unfoldable pub scan_page : (ℕ → Option ℕ) → ℕ → ℕ → Run Bool
scan_page mem addr zero = ok false
scan_page mem addr (suc n) = do
  c ← deref (mem addr)
  elim c [ zero ↦ ok true | suc _ ↦ scan_page mem (addr + 1) n ]

-- The outer loop, over `n` pages: `addr` is the next character, and `left` how many are left on the
-- page. The entry that it tests is the same in every round.
unfoldable pub string_loop : (ℕ → Option ℕ) → ℕ → Prot → Pte → ℕ → ℕ → ℕ → Run Bool
string_loop mem size prot e zero addr left = ok false
string_loop mem size prot e (suc n) addr left = elim (grants prot e) [
  | false ↦ ok false
  | true ↦ do
    found ← scan_page mem addr left
    elim found [ true ↦ ok true | false ↦ string_loop mem size prot e n (addr + left) size ]
]

abbrev pub prot_read : Prot
prot_read = record { read = true; write = false; exec = false }

unfoldable pub is_valid_string : Hardware → Tables → (ℕ → Option ℕ) → ℕ → Run Bool
is_valid_string hw t mem string =
    if string == null then ok false else elim (table_of hw t (page_of hw string)) [
      | none ↦ ok false
      | some (table, i, max) ↦ do
        e ← deref (get_elem? table i)
        string_loop mem (page_size hw) prot_read e (max - page_of hw string) string
            (down_to_page hw string + page_size hw - string)
    ]
