-- ===== src/Loading/Arguments.antt =====
-- `LoadProgram`: where the arguments, the vector of pointers to them and the stack pointer lie.
use native.Mathlib.Nat.{
  div-add-mod, mul-add, mul_comm, mul-div_cancel, mul-div-le, mul-le-mul_right,
  le_of_mul-le-mul_left, div-mul-le_self,
}
use yallnix.Prelude.{
  ℕ, suc, ◌+◌, ◌-◌, ◌*◌, ◌/◌, ◌%◌, ◌^◌, ◌<◌, ◌≤◌, ◌≡◌, refl, ap, ◌∙◌, List, [], ◌∷◌, ◌++◌, length,
  arith,
}
use yallnix.Hardware.{Hardware, page_size, down_to_page}
use yallnix.PageTable.Address.{pow_pos}
use yallnix.Loading.{
  Constants, sub32, args_size, args_base, vector_base, stack_pointer, stack_pages, arg_pointers,
  vector_words,
}

sub32_lem : (a b : ℕ) → b ≤ a → a < 2 ^ 32 → sub32 a b ≡ a - b
sub32_lem a b le lt = omega arith

-- The addresses lie between two others, and each next one is higher.
abbrev pub Rising : ℕ → ℕ → List ℕ → Type 0
Rising low high [] = low ≤ high
Rising low high (a ∷ rest) = (low ≤ a) × (a < high) × Rising (suc a) high rest

arg_pointers-Rising :
    (low cp high : ℕ) (lens : List ℕ)
    → low ≤ cp
    → cp + args_size lens ≡ high
    → Rising low high (arg_pointers cp lens)
arg_pointers-Rising low cp high [] le e = omega arith
arg_pointers-Rising low cp high (len ∷ lens) le e = (
  le,
  omega arith,
  arg_pointers-Rising (suc cp) (cp + len + 1) high lens (omega arith) (omega arith),
)

length_vector :
    (cp : ℕ) (lens : List ℕ) → length (arg_pointers cp lens ++ 0 ∷ 0 ∷ []) ≡ length lens + 2
length_vector cp [] = refl
length_vector cp (len ∷ lens) = omega (arith, length_vector (cp + len + 1) lens)

-- The arguments, the vector, eight bytes for its alignment, and the frame fit below the limit.
pub record HasRoom (hw : Hardware) (c : Constants) (lens : List ℕ) : Type 0 where
  pub bounded : hw.vmem_1_limit < 2 ^ 32
  pub room :
      args_size lens + (length lens + 3 + c.post_null) * c.pointer + 7 + c.frame ≤ hw.vmem_1_limit

-- From the stack pointer upwards: the frame, the vector of `argc`, pointers and two NULLs, and the
-- strings up to the limit, all on pages of the stack.
pub record Arranged (hw : Hardware) (c : Constants) (lens : List ℕ) : Type 0 where
  pub frame_below : stack_pointer hw c lens + c.frame ≡ vector_base hw c lens
  pub words : length (vector_words hw lens) ≡ length lens + 3
  pub vector_below : vector_base hw c lens + (length lens + 3) * c.pointer ≤ args_base hw lens
  pub aligned : vector_base hw c lens % 8 ≡ 0
  pub strings_below : args_base hw lens + args_size lens ≡ hw.vmem_1_limit
  pub pointers : Rising (args_base hw lens) hw.vmem_1_limit (arg_pointers (args_base hw lens) lens)
  pub on_stack : hw.vmem_1_limit ≤ stack_pointer hw c lens + stack_pages hw c lens * page_size hw

down_to_eight : (x : ℕ) → (x / 8 * 8 ≤ x) × (x ≤ x / 8 * 8 + 7) × (x / 8 * 8 % 8 ≡ 0)
down_to_eight x = (omega arith, omega arith, omega arith)

reach :
    (limit sp d k q : ℕ)
    → 0 < d
    → limit ≡ d * k
    → d * q ≤ sp
    → q ≤ k
    → limit ≤ sp + (limit - q * d) / d * d
reach limit sp d k q p up low le =
    let split : d * k ≡ d * q + d * (k - q) = ap (λ z. d * z) (omega arith) ∙ mul-add d q (k - q) in
    let rest : limit - q * d ≡ (k - q) * d =
      omega (arith, up, split, mul_comm d q, mul_comm d (k - q)) in
    let cut : (limit - q * d) / d ≡ k - q = ap (λ z. z / d) rest ∙ mul-div_cancel (k - q) p in
    rw cut (omega (arith, up, split, low, mul_comm d (k - q)))

-- The pages from an address up to a limit that ends a page.
pages_reach :
    (limit sp d : ℕ)
    → 0 < d
    → limit % d ≡ 0
    → sp ≤ limit
    → limit ≤ sp + (limit - sp / d * d) / d * d
pages_reach limit sp d p whole le =
    let up : limit ≡ d * (limit / d) = omega (arith, div-add-mod limit d, whole) in
    let low : d * (sp / d) ≤ sp = mul-div-le sp d in
    reach limit sp d (limit / d) (sp / d) p up low (le_of_mul-le-mul_left (omega arith) p)

-- If region 1 ends at a page and has room for the arguments, their vector, its alignment and the
-- initial frame, `LoadProgram` lays them out apart: from the stack pointer upwards the frame, the
-- vector of the count, the pointers and two NULLs at a multiple of eight, and the strings up to
-- the end, each pointer above the one before it and in the strings; all of it is on the pages of
-- the stack.
pub stack_pointer-Arranged :
    (hw : Hardware) (c : Constants) (lens : List ℕ)
    → HasRoom hw c lens
    → hw.vmem_1_limit % page_size hw ≡ 0
    → Arranged hw c lens
stack_pointer-Arranged hw c lens h whole =
    let base : args_base hw lens ≡ hw.vmem_1_limit - args_size lens =
      sub32_lem hw.vmem_1_limit (args_size lens) (omega (arith, h.room)) h.bounded in
    let n : ℕ = (length lens + 3 + c.post_null) * c.pointer in
    let vector : vector_base hw c lens ≡ (hw.vmem_1_limit - args_size lens - n) / 8 * 8 =
      ap (λ z. z / 8 * 8)
        (sub32_lem (args_base hw lens) n (omega (arith, base, h.room))
            (omega (arith, base, h.bounded))
          ∙ ap (λ z. z - n) base) in
    let near = down_to_eight (hw.vmem_1_limit - args_size lens - n) in
    let sp : stack_pointer hw c lens ≡ vector_base hw c lens - c.frame =
      sub32_lem (vector_base hw c lens) c.frame (omega (arith, vector, near, h.room))
        (omega (arith, vector, near, h.bounded)) in
    let words_le : (length lens + 3) * c.pointer ≤ n = mul-le-mul_right c.pointer (omega arith) in
    record {
      frame_below = omega (arith, sp, vector, near, h.room);
      words = omega (arith, length_vector (args_base hw lens) lens);
      vector_below = omega (arith, base, vector, near, h.room, words_le);
      aligned = ap (λ z. z % 8) vector ∙ near.2;
      strings_below = omega (arith, base, h.room);
      pointers = arg_pointers-Rising _ _ _ lens (omega arith) (omega (arith, base, h.room));
      on_stack =
          let size : ℕ = page_size hw in
          let low : ℕ = stack_pointer hw c lens in
          let le : low ≤ hw.vmem_1_limit = omega (arith, sp, vector, near) in
          let cut : sub32 hw.vmem_1_limit (down_to_page hw low)
              ≡ hw.vmem_1_limit - low / size * size =
            sub32_lem hw.vmem_1_limit (down_to_page hw low)
              (omega (arith, le, div-mul-le_self low size)) h.bounded in
          rw (ap (λ z. z / size) cut)
            (pages_reach hw.vmem_1_limit low size (pow_pos hw.page_shift) whole le);
    }
