-- ===== src/FrameList/Tests.antt =====
-- FrameList.c on four frames, the second and the third of them free.
use yallnix.Prelude.{
  ℕ, ◌≡◌, refl, Bool, true, false, [], ◌∷◌, some, arith, if◌then◌else◌, ◌==◌, ◌+◌,
}
use yallnix.Hardware.{Hardware}
use yallnix.FrameList.{Frame, Frames, get_frame, get_frame_loop, free_frame}
use yallnix.FrameList.Alloc.{Distinct, Guarded, free_at, count_free, get_frame-Takes}
use yallnix.FrameList.Free.{free_frame-get_frame, free_frame-free_at}

abbrev frame : ℕ → Bool → Frame
frame p is_free = record { pfn = p; is_free = is_free }

abbrev four : Frames
four = record {
  array = frame 4 false ∷ frame 5 true ∷ frame 6 true ∷ frame 7 false ∷ [];
  past = frame 0 false;
}

abbrev four_less_one : Frames
four_less_one = record {
  array = frame 4 false ∷ frame 5 false ∷ frame 6 true ∷ frame 7 false ∷ [];
  past = frame 0 false;
}

four-Distinct : Distinct four.array
four-Distinct = (
  (omega arith, (omega arith, (omega arith, tt))),
  ((omega arith, (omega arith, tt)), ((omega arith, tt), (tt, tt))),
)

run_one : get_frame (some four) ≡ (some 5, some four_less_one)
unfolding get_frame get_frame_loop
run_one = refl

get_frame-Takes_example :
    (free_at 5 four.array ≡ true)
    × (count_free four_less_one.array + 1 ≡ count_free four.array)
    × ((q : ℕ) → free_at q four_less_one.array ≡ (if 5 == q then false else free_at q four.array))
    × Guarded four_less_one
get_frame-Takes_example = get_frame-Takes four 5 four_less_one four-Distinct refl run_one

free_frame-get_frame_example : free_frame four_less_one 5 ≡ four
free_frame-get_frame_example = free_frame-get_frame four 5 four_less_one four-Distinct refl run_one

free_frame-free_at_example : free_at 7 (free_frame four 7).array ≡ true
free_frame-free_at_example = free_frame-free_at four 7 7

abbrev machine : Hardware
machine = record {
  page_shift = 4;
  pmem_base = 0;
  vmem_0_base = 0;
  vmem_0_limit = 128;
  vmem_1_base = 128;
  vmem_1_limit = 256;
  kernel_stack_base = 96;
  kernel_stack_limit = 128;
  max_pt_len = 8;
}
