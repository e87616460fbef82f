-- ===== src/Boot/Mapping.antt =====
-- The first page table against the frame list that `initFrameList` makes.
use native.Mathlib.Nat.{
  mul-le-mul_right, lt_of_mul-lt-mul_right, mul-lt-mul_of_pos_right, suc-mul, add-mul,
}
use yallnix.Prelude.{
  ℕ, zero, suc, ◌+◌, ◌*◌, ◌%◌, ◌^◌, ◌<◌, ◌≤◌, ◌≡◌, refl, sym, ap, subst, ◌∙◌, true, false, not,
  ◌&&◌, ◌||◌, some, List, [], ◌∷◌, ok, Bool-cases, Option-cases, inl, inr, ltb, leb, get_elem?,
  replicate, if◌then◌else◌, success, arith,
}
use yallnix.Hardware.{Hardware, page_size, page_of}
use yallnix.PageTable.{Pte, prot_none}
use yallnix.PageTable.Address.{pow_pos}
use yallnix.FrameList.{Frame, init_frame_list}
use yallnix.FrameList.Init.{init_frame_list-get}
use yallnix.Boot.{boot_prot, boot_entry, boot_table}

next_lt : (a b d : ℕ) → a * d < b * d → a * d + d ≤ b * d
next_lt a b d lt =
    let less : a < b = lt_of_mul-lt-mul_right d lt in
    let up : suc a * d ≤ b * d = mul-le-mul_right d less in omega (arith, up, suc-mul a d)

-- Addresses of pages: the page ends below another one's beginning, or it begins below.
page_ends : (a b d : ℕ) → 0 < d → leb (a * d + d) (b * d) ≡ ltb (a * d) (b * d)
page_ends a b d p = elim (Bool-cases (ltb (a * d) (b * d))) [
  | inl below ↦ let lt : a * d < b * d = ground arith in let le = next_lt a b d lt in ground arith
  | inr above ↦ ground arith
]

page_begins : (a b d : ℕ) → 0 < d → ltb (b * d) (a * d + d) ≡ leb (b * d) (a * d)
page_begins a b d p = elim (Bool-cases (ltb (a * d) (b * d))) [
  | inl below ↦ let lt : a * d < b * d = ground arith in let le = next_lt a b d lt in ground arith
  | inr above ↦ ground arith
]

abbrev pub blank : Pte
blank = record { valid = false; prot = prot_none; pfn = 0 }

boot_list : Hardware → ℕ → ℕ → ℕ → ℕ → List Pte
boot_list hw data_start brk zero addr = []
boot_list hw data_start brk (suc n) addr =
    boot_entry hw data_start brk addr blank ∷ boot_list hw data_start brk n (addr + page_size hw)

boot_table-boot_list :
    (hw : Hardware) (data_start brk n addr : ℕ)
    → boot_table hw data_start brk n addr (replicate n blank)
      ≡ ok (boot_list hw data_start brk n addr)
unfolding boot_table boot_list
boot_table-boot_list hw data_start brk zero addr = refl
boot_table-boot_list hw data_start brk (suc n) addr =
    rw (boot_table-boot_list hw data_start brk n (addr + page_size hw)) refl

boot_list-get :
    (hw : Hardware) (data_start brk n addr i : ℕ)
    → i < n
    → get_elem? (boot_list hw data_start brk n addr) i
      ≡ some (boot_entry hw data_start brk (addr + i * page_size hw) blank)
unfolding boot_list
boot_list-get hw data_start brk zero addr i lt = absurd (omega arith)
boot_list-get hw data_start brk (suc n) addr zero lt =
    ap (λ a. some (boot_entry hw data_start brk a blank)) (omega arith)
boot_list-get hw data_start brk (suc n) addr (suc i) lt =
    boot_list-get hw data_start brk n (addr + page_size hw) i (omega arith)
    ∙ ap (λ a. some (boot_entry hw data_start brk a blank)) (omega arith)

-- Memory begins at a page, both breaks and the kernel stack do, and the stack ends behind the table's
-- pages.
pub record Layout (hw : Hardware) (n first brk_page new_page stack_page data_start : ℕ)
    : Type 0 where
  pub base : hw.pmem_base ≡ first * page_size hw
  pub stack : hw.kernel_stack_base ≡ stack_page * page_size hw
  pub limit : hw.pmem_base + n * page_size hw ≤ hw.kernel_stack_limit
  pub data_below : data_start ≤ new_page * page_size hw
  pub not_less : brk_page ≤ new_page

boot_entry-valid :
    (hw : Hardware) (data_start brk addr : ℕ)
    → data_start ≤ brk
    → leb (addr + page_size hw) brk ≡ ltb addr brk
    → ltb hw.kernel_stack_base (addr + page_size hw) ≡ leb hw.kernel_stack_base addr
    → (boot_entry hw data_start brk addr blank).valid
      ≡ (ltb addr brk || leb hw.kernel_stack_base addr)
unfolding boot_prot
boot_entry-valid hw data_start brk addr le ends begins =
    elim (Bool-cases (leb (addr + page_size hw) data_start)) [
      | inl text ↦
          let below : leb (addr + page_size hw) brk ≡ true = ground arith in
          ground (arith, text, ends, below)
      | inr other ↦ elim (Bool-cases (leb (addr + page_size hw) brk)) [
        | inl below ↦ ground (arith, other, below, ends)
        | inr above ↦ ground (arith, other, above, ends, begins)
      ]
    ]

-- A page that the table maps has the frame of its own number.
boot_entry-number :
    (hw : Hardware) (data_start brk addr : ℕ)
    → (boot_entry hw data_start brk addr blank).pfn % 2 ^ 24
      ≡ (if (boot_entry hw data_start brk addr blank).valid then page_of hw addr % 2 ^ 24 else 0)
boot_entry-number hw data_start brk addr = elim (Option-cases (boot_prot hw data_start brk addr)) [
  | inl unused ↦ ground (arith, unused)
  | inr (prot, used) ↦ ground (arith, used)
]

agree :
    (old new base limit addr : ℕ)
    → old ≤ new
    → addr < limit
    → (ltb addr new || leb base addr)
      ≡ (not (leb old addr && (ltb addr base || leb limit addr)) || (leb old addr && ltb addr new))
agree old new base limit addr le lt = ground arith

-- What the frame list and the page table say of the page `i`.
pub record Recorded (hw : Hardware) (i old new : ℕ) (fs : List Frame) (table : List Pte)
    : Type 0 where
  pub frame : Frame
  pub entry : Pte
  pub in_list : get_elem? fs i ≡ some frame
  pub in_table : get_elem? table i ≡ some entry
  pub used :
      let addr : ℕ = hw.pmem_base + i * page_size hw in
      entry.valid ≡ (not frame.is_free || (leb old addr && ltb addr new))
  pub number : entry.pfn % 2 ^ 24 ≡ (if entry.valid then frame.pfn else 0)

-- Where memory, the breaks and the kernel stack begin at pages and the stack reaches to the end of
-- region 0, `initFrameList` with the break as it is passed and the table that `KernelStart` then
-- fills with the break as it is by then, which is no lower, agree on every page that has a frame
-- and an entry: it is mapped exactly if its frame is listed as used or the page lies between the
-- two breaks, and then to that frame, by its number in 24 bits.
pub boot_table-Recorded :
    (hw : Hardware) (n first brk_page new_page stack_page data_start m i : ℕ)
    → Layout hw n first brk_page new_page stack_page data_start
    → i < n
    → i < m
    → let old : ℕ = brk_page * page_size hw in
      let new : ℕ = new_page * page_size hw in
      (fs : List Frame) × (table : List Pte) × (init_frame_list hw true m old ≡ (success, some fs))
      × (boot_table hw data_start new n hw.pmem_base (replicate n blank) ≡ ok table)
      × Recorded hw i old new fs table
boot_table-Recorded hw n first brk_page new_page stack_page data_start m i l lt listed =
    let d : ℕ = page_size hw in
    let p : 0 < d = pow_pos hw.page_shift in
    let old : ℕ = brk_page * d in
    let new : ℕ = new_page * d in
    let addr : ℕ = hw.pmem_base + i * d in
    let at : addr ≡ (first + i) * d = omega (arith, l.base, add-mul first i d) in
    let ends : leb (addr + d) new ≡ ltb addr new =
      ap (λ z. leb (z + d) new) at
      ∙ page_ends (first + i) new_page d p
      ∙ ap (λ z. ltb z new) (sym at) in
    let begins : ltb hw.kernel_stack_base (addr + d) ≡ leb hw.kernel_stack_base addr =
      subst (λ z. ltb z (addr + d) ≡ leb z addr) (sym l.stack)
        (ap (λ z. ltb (stack_page * d) (z + d)) at
          ∙ page_begins (first + i) stack_page d p
          ∙ ap (λ z. leb (stack_page * d) z) (sym at)) in
    let (fs, made, in_list) = init_frame_list-get hw m old i listed in
    let in_stack : addr < hw.kernel_stack_limit =
      omega (arith, l.limit, mul-lt-mul_of_pos_right lt p) in
    (
      fs,
      boot_list hw data_start new n hw.pmem_base,
      made,
      boot_table-boot_list hw data_start new n hw.pmem_base,
      record {
        frame = _;
        entry = _;
        in_list = in_list;
        in_table = boot_list-get hw data_start new n hw.pmem_base i lt;
        used =
            boot_entry-valid hw data_start new addr l.data_below ends begins
            ∙ agree old new hw.kernel_stack_base hw.kernel_stack_limit addr
                (mul-le-mul_right d l.not_less) in_stack;
        number = boot_entry-number hw data_start new addr;
      },
    )
