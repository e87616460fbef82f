-- ===== src/FrameList/Free.antt =====
-- `freeFrame` of FrameList.c, alone and after `getFrame`.
use yallnix.Prelude.{
  ℕ, ◌+◌, ◌≡◌, refl, Bool, true, false, some, List, [], ◌∷◌, ◌==◌, if◌then◌else◌, arith, Bool-cases,
  inl, inr,
}
use yallnix.FrameList.{Frame, Frames, get_frame_loop, get_frame, free_frame_loop, free_frame}
use yallnix.FrameList.Alloc.{
  count_free, free_at, Absent, Distinct, Guarded, free_at-Absent, get_frame_loop-Takes, Takes,
}

-- The list has a record for the number.
abbrev pub known : ℕ → List Frame → Bool
known p [] = false
known p (f ∷ fs) = if f.pfn == p then true else known p fs

free_frame_loop-free_at :
    (p q : ℕ) (fs : List Frame)
    → free_at q (free_frame_loop fs p) ≡ (if p == q then known q fs else free_at q fs)
unfolding free_frame_loop
free_frame_loop-free_at p q [] = ground arith
free_frame_loop-free_at p q (f ∷ fs) = ground (arith, free_frame_loop-free_at p q fs)

-- `freeFrame` frees the frame of that number, if there is one, and no other.
pub free_frame-free_at :
    (fs : Frames) (p q : ℕ)
    → free_at q (free_frame fs p).array ≡ (if p == q then known q fs.array else free_at q fs.array)
unfolding free_frame
free_frame-free_at fs p q = free_frame_loop-free_at p q fs.array

free_frame_loop-count :
    (p : ℕ) (fs : List Frame)
    → known p fs ≡ true
    → free_at p fs ≡ false
    → count_free (free_frame_loop fs p) ≡ count_free fs + 1
unfolding free_frame_loop
free_frame_loop-count p [] k e = cc
free_frame_loop-count p (f ∷ fs) k e = ground (arith, free_frame_loop-count p fs)

-- Freeing a taken frame makes exactly one more frame free.
pub free_frame-count :
    (fs : Frames) (p : ℕ)
    → known p fs.array ≡ true
    → free_at p fs.array ≡ false
    → count_free (free_frame fs p).array ≡ count_free fs.array + 1
unfolding free_frame
free_frame-count fs p k e = free_frame_loop-count p fs.array k e

free_frame_loop-back :
    (fs : List Frame) (past : Frame) (p : ℕ)
    → Distinct fs
    → past.is_free ≡ false
    → (get_frame_loop fs past).0 ≡ some p
    → free_frame_loop (get_frame_loop fs past).1 p ≡ fs
unfolding free_frame_loop get_frame_loop
free_frame_loop-back [] past p d g e = absurd (ground arith)
free_frame_loop-back (f ∷ fs) past p d g e = elim (Bool-cases f.is_free) [
  | inl free ↦ ground arith
  | inr busy ↦
      let r : Takes fs past p = get_frame_loop-Takes fs past p d.1 g (ground arith) in
      ground (arith, free_frame_loop-back fs past p d.1 g, r.was_free, free_at-Absent f.pfn fs d.0)
]

-- On frames with distinct numbers and memory behind the array that does not read as a free frame,
-- freeing the frame that `getFrame` has just handed out restores the frame list.
pub free_frame-get_frame :
    (fs : Frames) (p : ℕ) (fs' : Frames)
    → Distinct fs.array
    → Guarded fs
    → get_frame (some fs) ≡ (some p, some fs')
    → free_frame fs' p ≡ fs
unfolding free_frame get_frame
free_frame-get_frame fs p fs' d g e = ground (
  arith,
  free_frame_loop-back fs.array fs.past p d g (ground arith),
  (get_frame_loop-Takes fs.array fs.past p d g (ground arith)).same_past,
)

free_frame_loop-Absent : (q p : ℕ) (fs : List Frame) → Absent q fs → Absent q (free_frame_loop fs p)
unfolding free_frame_loop
free_frame_loop-Absent q p [] h = tt
free_frame_loop-Absent q p (f ∷ fs) h = ground (arith, free_frame_loop-Absent q p fs h.1)

pub free_frame_loop-Distinct :
    (p : ℕ) (fs : List Frame) → Distinct fs → Distinct (free_frame_loop fs p)
unfolding free_frame_loop
free_frame_loop-Distinct p [] d = tt
free_frame_loop-Distinct p (f ∷ fs) d =
    ground (arith, free_frame_loop-Distinct p fs d.1, free_frame_loop-Absent f.pfn p fs d.0)

free_frame_loop-known : (p q : ℕ) (fs : List Frame) → known q (free_frame_loop fs p) ≡ known q fs
unfolding free_frame_loop
free_frame_loop-known p q [] = refl
free_frame_loop-known p q (f ∷ fs) = ground (arith, free_frame_loop-known p q fs)

pub free_frame-known : (fs : Frames) (p q : ℕ) → known q (free_frame fs p).array ≡ known q fs.array
unfolding free_frame
free_frame-known fs p q = free_frame_loop-known p q fs.array
