-- ===== src/FrameList/Alloc.antt =====
-- `getFrame` of FrameList.c: which frames are free before and after.
use yallnix.Prelude.{
  ℕ, ◌+◌, ◌<◌, ◌≡◌, ◌≢◌, refl, ap, Bool, true, false, Option, none, some, List, [], ◌∷◌, ◌==◌,
  if◌then◌else◌, arith, Bool-cases, inl, inr,
}
use yallnix.FrameList.{Frame, Frames, taken, get_frame_loop, get_frame}

-- The number of free frames.
abbrev pub count_free : List Frame → ℕ
count_free [] = 0
count_free (f ∷ fs) = (if f.is_free then 1 else 0) + count_free fs

-- Some record for this number is free.
abbrev pub free_at : ℕ → List Frame → Bool
free_at p [] = false
free_at p (f ∷ fs) = if f.pfn == p then f.is_free else free_at p fs

abbrev pub Absent : ℕ → List Frame → Type 0
Absent p [] = Unit {0}
Absent p (f ∷ fs) = (p ≢ f.pfn) × Absent p fs

-- Each frame has one record.
abbrev pub Distinct : List Frame → Type 0
Distinct [] = Unit {0}
Distinct (f ∷ fs) = Absent f.pfn fs × Distinct fs

pub free_at-Absent : (p : ℕ) (fs : List Frame) → Absent p fs → free_at p fs ≡ false
free_at-Absent p [] h = refl
free_at-Absent p (f ∷ fs) h = ground (arith, free_at-Absent p fs h.1, h.0)

-- The record behind the array does not look free.
abbrev pub Guarded : Frames → Type 0
Guarded fs = fs.past.is_free ≡ false

pub record Takes (fs : List Frame) (past : Frame) (p : ℕ) : Type 0 where
  pub was_free : free_at p fs ≡ true
  pub one_less : count_free (get_frame_loop fs past).1 + 1 ≡ count_free fs
  pub only_it :
      (q : ℕ) → free_at q (get_frame_loop fs past).1 ≡ (if p == q then false else free_at q fs)
  pub same_past : (get_frame_loop fs past).2 ≡ past

free_ne : (q : ℕ) (f : Frame) (fs : List Frame) → free_at q fs ≡ true → Absent f.pfn fs → f.pfn ≢ q
free_ne q f fs e out same =
    false-true (rw (ap (λ z. free_at z fs) same) at (free_at-Absent f.pfn fs out)) e
  where
    false-true : free_at q fs ≡ false → free_at q fs ≡ true → ⊥
    false-true a b = cc

pub get_frame_loop-Takes :
    (fs : List Frame) (past : Frame) (p : ℕ)
    → Distinct fs
    → past.is_free ≡ false
    → (get_frame_loop fs past).0 ≡ some p
    → Takes fs past p
unfolding get_frame_loop
get_frame_loop-Takes [] past p d g e = absurd (ground arith)
get_frame_loop-Takes (f ∷ fs) past p d g e = elim (Bool-cases f.is_free) [
  | inl free ↦ record {
    was_free = ground arith;
    one_less = ground arith;
    only_it = λ q. ground arith;
    same_past = ground arith;
  }
  | inr busy ↦
      let r : Takes fs past p = get_frame_loop-Takes fs past p d.1 g (ground arith) in
      record {
        was_free = ground (arith, r.was_free, free_ne p f fs r.was_free d.0);
        one_less = ground (arith, r.one_less);
        only_it = λ q. ground (arith, r.only_it q, free_ne p f fs r.was_free d.0);
        same_past = ground (arith, r.same_past);
      }
]

-- A `getFrame` that succeeds, on frames with distinct numbers and memory behind the array that
-- does not read as a free frame, hands out a frame that was free, and takes that frame and no
-- other.
pub get_frame-Takes :
    (fs : Frames) (p : ℕ) (fs' : Frames)
    → Distinct fs.array
    → Guarded fs
    → get_frame (some fs) ≡ (some p, some fs')
    → (free_at p fs.array ≡ true)
      × (count_free fs'.array + 1 ≡ count_free fs.array)
      × ((q : ℕ) → free_at q fs'.array ≡ (if p == q then false else free_at q fs.array))
      × Guarded fs'
unfolding get_frame
get_frame-Takes fs p fs' d g e =
    let r : Takes fs.array fs.past p = get_frame_loop-Takes fs.array fs.past p d g (ground arith) in
    (
      r.was_free,
      ground (arith, r.one_less),
      λ q. ground (arith, r.only_it q),
      ground (arith, r.same_past),
    )

get_frame_loop-full :
    (fs : List Frame) (past : Frame)
    → count_free fs ≡ 0
    → get_frame_loop fs past
      ≡ (if past.is_free then (some past.pfn, fs, taken past) else (none, fs, past))
unfolding get_frame_loop
get_frame_loop-full [] past z = refl
get_frame_loop-full (f ∷ fs) past z = ground (arith, get_frame_loop-full fs past (ground arith))

-- With every frame taken `getFrame` decides by the memory behind the array: it returns ERROR only
-- if the record there looks taken, and else hands out whatever number that record holds and marks
-- it taken.
pub get_frame-full :
    (fs : Frames)
    → count_free fs.array ≡ 0
    → get_frame (some fs) ≡ (
        if fs.past.is_free
        then (some fs.past.pfn, some (record fs { past = taken fs.past }))
        else (none, some fs))
unfolding get_frame
get_frame-full fs z = ground (arith, get_frame_loop-full fs.array fs.past z)

get_frame_loop-total :
    (fs : List Frame) (past : Frame)
    → 0 < count_free fs
    → (p : ℕ) × ((get_frame_loop fs past).0 ≡ some p)
unfolding get_frame_loop
get_frame_loop-total [] past lt = absurd (omega arith)
get_frame_loop-total (f ∷ fs) past lt = elim (Bool-cases f.is_free) [
  | inl free ↦ (f.pfn, ground arith)
  | inr busy ↦ let (p, e) = get_frame_loop-total fs past (ground arith) in (p, ground (arith, e))
]

-- While a frame is free `getFrame` succeeds.
pub get_frame-total :
    (fs : Frames)
    → 0 < count_free fs.array
    → (p : ℕ) × (fs' : Frames) × (get_frame (some fs) ≡ (some p, some fs'))
unfolding get_frame
get_frame-total fs lt =
    let (p, e) = get_frame_loop-total fs.array fs.past lt in
    (
      p,
      record {
        array = (get_frame_loop fs.array fs.past).1;
        past = (get_frame_loop fs.array fs.past).2;
      },
      ground (arith, e),
    )

get_frame_loop-Absent :
    (q : ℕ) (fs : List Frame) (past : Frame) → Absent q fs → Absent q (get_frame_loop fs past).1
unfolding get_frame_loop
get_frame_loop-Absent q [] past h = ground arith
get_frame_loop-Absent q (f ∷ fs) past h = ground (arith, get_frame_loop-Absent q fs past h.1)

pub get_frame_loop-Distinct :
    (fs : List Frame) (past : Frame) → Distinct fs → Distinct (get_frame_loop fs past).1
unfolding get_frame_loop
get_frame_loop-Distinct [] past d = ground arith
get_frame_loop-Distinct (f ∷ fs) past d =
    ground (arith, get_frame_loop-Distinct fs past d.1, get_frame_loop-Absent f.pfn fs past d.0)

pub get_frame-Distinct :
    (fs fs' : Frames) (p : Option ℕ)
    → Distinct fs.array
    → get_frame (some fs) ≡ (p, some fs')
    → Distinct fs'.array
unfolding get_frame
get_frame-Distinct fs fs' p d e = ground (arith, get_frame_loop-Distinct fs.array fs.past d)
