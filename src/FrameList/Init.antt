-- ===== src/FrameList/Init.antt =====
-- The frame list after `initFrameList`.
use yallnix.Prelude.{
  ℕ, zero, suc, ◌+◌, ◌*◌, ◌%◌, ◌^◌, ◌<◌, ◌≡◌, refl, ap, ◌∙◌, true, ◌&&◌, ◌||◌, some, List, ltb, leb,
  arith, get_elem?, success,
}
use yallnix.Hardware.{Hardware, page_size, page_of}
use yallnix.FrameList.{Frame, init_frame, init_loop, init_frame_list}

init_loop-get :
    (hw : Hardware) (brk n addr i : ℕ)
    → i < n
    → get_elem? (init_loop hw brk n addr) i ≡ some (init_frame hw brk (addr + i * page_size hw))
unfolding init_loop
init_loop-get hw brk zero addr i lt = absurd (omega arith)
init_loop-get hw brk (suc n) addr zero lt = ap (λ a. some (init_frame hw brk a)) (omega arith)
init_loop-get hw brk (suc n) addr (suc i) lt =
    init_loop-get hw brk n (addr + page_size hw) i (omega arith)
    ∙ ap (λ a. some (init_frame hw brk a)) (omega arith)

-- With memory `initFrameList` succeeds, and the record of the frame at an address holds the number
-- of the page there, in 24 bits, and is free exactly when the address is neither below the break
-- nor in the kernel stack.
pub init_frame_list-get :
    (hw : Hardware) (n brk i : ℕ)
    → i < n
    → let addr = hw.pmem_base + i * page_size hw in
      (fs : List Frame) × (init_frame_list hw true n brk ≡ (success, some fs))
      × (get_elem? fs i
          ≡ some (record {
            pfn = page_of hw addr % 2 ^ 24;
            is_free =
                leb brk addr && (ltb addr hw.kernel_stack_base || leb hw.kernel_stack_limit addr);
          }))
unfolding init_frame_list init_frame
init_frame_list-get hw n brk i lt = (
  init_loop hw brk n hw.pmem_base,
  refl,
  rw (init_loop-get hw brk n hw.pmem_base i lt) (ground arith),
)
