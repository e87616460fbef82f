-- ===== src/FrameList.antt =====
-- KernelDataStructures/FrameList/FrameList.c: one record for each physical frame. The list is the
-- array of `numFrames` records. `getFrame` reads one record behind the array once all are taken:
-- `past` is what the memory there holds.
pub mod Alloc
pub mod Free
pub mod Init
mod Tests
use yallnix.Prelude.{
  ℕ, zero, suc, ◌+◌, ◌*◌, ◌%◌, ◌^◌, Bool, true, false, not, ◌&&◌, ◌||◌, Option, none, some, List,
  [], ◌∷◌, Status, error, success, ltb, leb, ◌==◌, if◌then◌else◌,
}
use yallnix.Hardware.{Hardware, page_size, page_of}

pub record Frame : Type 0 where
  pub pfn : ℕ
  pub is_free : Bool

pub record Frames : Type 0 where
  pub array : List Frame
  pub past : Frame

-- The `i`-th record: `pfn` is a bit field of 24 bits.
init_frame : Hardware → ℕ → ℕ → Frame
init_frame hw brk addr = record {
  pfn = page_of hw addr % 2 ^ 24;
  is_free = not (ltb addr brk || (leb hw.kernel_stack_base addr && ltb addr hw.kernel_stack_limit));
}

init_loop : Hardware → ℕ → ℕ → ℕ → List Frame
unfolding init_frame
init_loop hw brk zero addr = []
init_loop hw brk (suc n) addr = init_frame hw brk addr ∷ init_loop hw brk n (addr + page_size hw)

unfoldable pub init_frame_list : Hardware → Bool → ℕ → ℕ → Status × Option (List Frame)
unfolding init_loop
init_frame_list hw got num_frames brk =
    if got then (success, some (init_loop hw brk num_frames hw.pmem_base)) else (error, none)

-- `currFrame->isFree = 0`.
abbrev pub taken : Frame → Frame
taken f = record f { is_free = false }

-- The loop of `getFrame`: the frame number that it writes, or `none` for ERROR.
unfoldable pub get_frame_loop : List Frame → Frame → Option ℕ × List Frame × Frame
get_frame_loop [] past = if past.is_free then (some past.pfn, [], taken past) else (none, [], past)
get_frame_loop (f ∷ fs) past =
    let (got, fs', past') = get_frame_loop fs past in
    if f.is_free then (some f.pfn, taken f ∷ fs, past) else (got, f ∷ fs', past')

unfoldable pub get_frame : Option Frames → Option ℕ × Option Frames
unfolding get_frame_loop
get_frame none = (none, none)
get_frame (some fs) =
    let (got, array, past) = get_frame_loop fs.array fs.past in
    (got, some (record { array = array; past = past }))

unfoldable pub free_frame_loop : List Frame → ℕ → List Frame
free_frame_loop [] pfn = []
free_frame_loop (f ∷ fs) pfn =
    if f.pfn == pfn then record f { is_free = true } ∷ fs else f ∷ free_frame_loop fs pfn

unfoldable pub free_frame : Frames → ℕ → Frames
unfolding free_frame_loop
free_frame fs pfn = record fs { array = free_frame_loop fs.array pfn }
