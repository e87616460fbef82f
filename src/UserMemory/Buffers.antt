-- ===== src/UserMemory/Buffers.antt =====
-- `isValidBuffer` against the pages that a buffer needs.
use native.Mathlib.Nat.{
  div-eq-sub-div, div-eq_of_lt, div-add-mod, mod-lt, mul-add-div, add-div_right,
}
use yallnix.Prelude.{
  ℕ, zero, suc, ◌+◌, ◌-◌, ◌*◌, ◌/◌, ◌%◌, ◌<◌, ◌≤◌, ◌≡◌, ◌≢◌, refl, sym, ap, Bool, true, false, ◌&&◌,
  none, some, List, ok, null, ltb, get_elem?, set, length, arith, get_elem?_of_lt, get_elem?-set_ne,
  Bool-cases, inl, inr,
}
use yallnix.Prelude.Int.{pos}
use yallnix.Hardware.{Hardware, page_size, page_of, user_base_vpn}
use yallnix.PageTable.{Pte, Prot}
use yallnix.PageTable.Address.{pow_pos}
use yallnix.UserMemory.{Tables, grants, buffer_loop, is_valid_buffer}

-- How many pages a length takes.
abbrev pub pages_of : ℕ → ℕ → ℕ
pages_of len size = (len + size - 1) / size

le_step : (len size : ℕ) → size ≤ suc len + size - 1
le_step len size = omega arith

short_lt : (len size : ℕ) → 0 < size → ltb len size ≡ true → suc len - size + size - 1 < size
short_lt len size p short = ground arith

first_lt : (len size : ℕ) → 0 < size → ltb len size ≡ true → suc len + size - 1 - size < size
first_lt len size p short = ground arith

regroup :
    (len size : ℕ) → ltb len size ≡ false → suc len + size - 1 - size ≡ suc len - size + size - 1
regroup len size long = ground arith

pages_of_step :
    (len size : ℕ) → 0 < size → pages_of (suc len) size ≡ 1 + pages_of (suc len - size) size
pages_of_step len size p = elim (Bool-cases (ltb len size)) [
  | inl short ↦ omega (
    arith,
    div-eq-sub-div p (le_step len size),
    div-eq_of_lt (short_lt len size p short),
    div-eq_of_lt (first_lt len size p short),
  )
  | inr long ↦
      omega (arith, div-eq-sub-div p (le_step len size), ap (λ z. z / size) (regroup len size long))
]

pages_of_zero : (size : ℕ) → 0 < size → pages_of 0 size ≡ 0
pages_of_zero size p = div-eq_of_lt (omega arith)

-- Whether each of `n` pages may be used.
abbrev pub all_grant : Prot → List Pte → ℕ → ℕ → Bool
all_grant prot table i zero = true
all_grant prot table i (suc n) = elim (get_elem? table i) [
  | none ↦ false
  | some e ↦ grants prot e && all_grant prot table (i + 1) n
]

buffer_loop-all_grant :
    (f size : ℕ) (prot : Prot) (table : List Pte) (i len : ℕ)
    → 0 < size
    → len ≤ f
    → i + pages_of len size ≤ length table
    → buffer_loop f size prot table i len ≡ ok (all_grant prot table i (pages_of len size))
unfolding buffer_loop
buffer_loop-all_grant f size prot table i zero p le fits =
    sym (ap (λ n. ok (all_grant prot table i n)) (pages_of_zero size p))
buffer_loop-all_grant zero size prot table i (suc len) p le fits = absurd (omega arith)
buffer_loop-all_grant (suc f) size prot table i (suc len) p le fits =
    let more : pages_of (suc len) size ≡ 1 + pages_of (suc len - size) size =
      pages_of_step len size p in
    let (e, at) = get_elem?_of_lt table i (omega arith) in
    let rest =
      buffer_loop-all_grant f size prot table (i + 1) (suc len - size) p (omega arith)
        (omega arith) in
    rw (more, at) (ground (arith, rest))

-- A change of an entry behind the pages that are tested.
buffer_loop-set :
    (f size : ℕ) (prot : Prot) (table : List Pte) (i len k : ℕ) (e : Pte)
    → 0 < size
    → len ≤ f
    → i + pages_of len size ≤ k
    → buffer_loop f size prot (set table k e) i len ≡ buffer_loop f size prot table i len
unfolding buffer_loop
buffer_loop-set f size prot table i zero k e p le out = refl
buffer_loop-set zero size prot table i (suc len) k e p le out = refl
buffer_loop-set (suc f) size prot table i (suc len) k e p le out =
    let more : pages_of (suc len) size ≡ 1 + pages_of (suc len - size) size =
      pages_of_step len size p in
    let rest =
      buffer_loop-set f size prot table (i + 1) (suc len - size) k e p (omega arith)
        (omega arith) in
    rw (get_elem?-set_ne table {i = k} {j = i} e (ground arith)) (ground (arith, rest))

shift : (len d : ℕ) → 0 < d → suc len + d - 1 ≡ len + d
shift len d p = omega arith

-- The page behind those that the length takes, if the buffer begins late on its first page.
last_page :
    (buffer len d : ℕ)
    → 0 < d
    → d ≤ buffer % d + len % d
    → (buffer + len) / d ≡ buffer / d + pages_of (suc len) d
last_page buffer len d p late =
    let s : ℕ = buffer % d + len % d - d in
    let whole : buffer + len ≡ d * (buffer / d + len / d + 1) + s =
      grind (arith, div-add-mod buffer d, div-add-mod len d) in
    let small : s < d = omega (arith, mod-lt buffer p, mod-lt len p) in
    omega (
      arith,
      ap (λ z. z / d) whole,
      mul-add-div p (buffer / d + len / d + 1) s,
      div-eq_of_lt small,
      add-div_right len p,
      ap (λ z. z / d) (shift len d p),
    )

-- The page of the buffer is in region 1, and so are the pages that its length takes.
pub record InRegion1 (hw : Hardware) (t : Tables) (buffer len : ℕ) : Type 0 where
  pub not_null : buffer ≢ null
  pub above : hw.max_pt_len ≤ page_of hw buffer
  pub below : page_of hw buffer < hw.max_pt_len * 2
  pub fits :
      page_of hw buffer - user_base_vpn hw + pages_of (suc len) (page_size hw) ≤ length t.region1

-- `isValidBuffer` of a positive length in region 1, if the pages that the length takes from the
-- page of the buffer on are in the table, tells whether each of those pages is valid and grants
-- the protection.
pub is_valid_buffer-all_grant :
    (hw : Hardware) (t : Tables) (buffer len : ℕ) (prot : Prot)
    → InRegion1 hw t buffer len
    → is_valid_buffer hw t buffer (pos (suc len)) prot
      ≡ ok (
          all_grant prot t.region1
            (page_of hw buffer - user_base_vpn hw)
            (pages_of (suc len) (page_size hw)))
unfolding is_valid_buffer
is_valid_buffer-all_grant hw t buffer len prot r =
    let run =
      buffer_loop-all_grant (suc len) (page_size hw) prot t.region1
        (page_of hw buffer - user_base_vpn hw) (suc len) (pow_pos hw.page_shift) (omega arith)
        r.fits in
    ground (arith, r.not_null, r.above, r.below, run)

-- A buffer that begins late on its first page, so that its last byte is on a page more than its length
-- takes: what that page's entry is makes no difference.
pub is_valid_buffer-last_page :
    (hw : Hardware) (t : Tables) (buffer len : ℕ) (prot : Prot) (e : Pte)
    → InRegion1 hw t buffer len
    → user_base_vpn hw ≤ page_of hw buffer
    → page_size hw ≤ buffer % page_size hw + len % page_size hw
    → let last : ℕ = page_of hw (buffer + len) - user_base_vpn hw in
      is_valid_buffer hw (record t { region1 = set t.region1 last e }) buffer (pos (suc len)) prot
      ≡ is_valid_buffer hw t buffer (pos (suc len)) prot
unfolding is_valid_buffer
is_valid_buffer-last_page hw t buffer len prot e r base late =
    let same =
      buffer_loop-set (suc len) (page_size hw) prot t.region1 (page_of hw buffer - user_base_vpn hw)
        (suc len) (page_of hw (buffer + len) - user_base_vpn hw) e (pow_pos hw.page_shift)
        (omega arith)
        (omega (arith, last_page buffer len (page_size hw) (pow_pos hw.page_shift) late)) in
    ground (arith, r.not_null, r.above, r.below, same)
