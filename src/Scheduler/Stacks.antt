-- ===== src/Scheduler/Stacks.antt =====
-- The frames of the kernel stack of a new process.
use yallnix.Prelude.{
  ℕ, zero, suc, ◌+◌, ◌<◌, ◌≡◌, refl, sym, ap, ◌∙◌, Bool, true, false, ◌||◌, Option, none, some,
  List, [], ◌∷◌, ◌++◌, ltb, ◌==◌, if◌then◌else◌, error, success, length, drop, arith, ◌⊎◌, inl, inr,
  Bool-cases, Ptr,
}
use yallnix.FrameList.{Frame, Frames, get_frame_loop, get_frame, free_frame}
use yallnix.FrameList.Alloc.{
  count_free, free_at, Distinct, Guarded, get_frame-Takes, get_frame-total, get_frame-full,
  get_frame-Distinct,
}
use yallnix.FrameList.Free.{known, free_frame-free_at, free_frame-known}
use yallnix.Scheduler.Exit.{free_stack}
use yallnix.Scheduler.Creation.{take_frames, init_stack}
use yallnix.HashMap.{HashMap}
use yallnix.PageTable.{Pte}
use yallnix.Kernel.{Kernel}

abbrev pub among : ℕ → List ℕ → Bool
among q [] = false
among q (p ∷ ps) = p == q || among q ps

-- `n` frames that were free are taken, and no others.
pub record Taken (n : ℕ) (fs : Frames) (pfns : List ℕ) (fs' : Frames) : Type 0 where
  pub size : length pfns ≡ n
  pub less : count_free fs'.array + n ≡ count_free fs.array
  pub were_free : (q : ℕ) → among q pfns ≡ true → free_at q fs.array ≡ true
  pub only_them :
      (q : ℕ) → free_at q fs'.array ≡ (if among q pfns then false else free_at q fs.array)

-- All the frames that were free are taken, and there were too few.
pub record AllTaken (n : ℕ) (fs : Frames) (pfns : List ℕ) (fs' : Frames) : Type 0 where
  pub size : length pfns ≡ count_free fs.array
  pub short : count_free fs.array < n
  pub same : (q : ℕ) → known q fs'.array ≡ known q fs.array

get_frame_loop-known :
    (q : ℕ) (fs : List Frame) (past : Frame) → known q (get_frame_loop fs past).1 ≡ known q fs
unfolding get_frame_loop
get_frame_loop-known q [] past = elim (Bool-cases past.is_free) [
  | inl e ↦ rw e refl
  | inr e ↦ rw e refl
]
get_frame_loop-known q (f ∷ fs) past = ground (arith, get_frame_loop-known q fs past)

pub first_free :
    (q p : ℕ) (ps : List ℕ) (fs fs₁ : Frames)
    → free_at p fs.array ≡ true
    → free_at q fs₁.array ≡ (if p == q then false else free_at q fs.array)
    → (among q ps ≡ true → free_at q fs₁.array ≡ true)
    → among q (p ∷ ps) ≡ true
    → free_at q fs.array ≡ true
first_free q p ps fs fs₁ was only rest e = elim (Bool-cases (p == q)) [
  | inl same ↦ let eq : p ≡ q = ground arith in ap (λ z. free_at z fs.array) (sym eq) ∙ was
  | inr other ↦
      let more : among q ps ≡ true = ground (arith, e) in
      let there = rest more in ground (arith, there, only)
]

pub take_frames-Taken :
    (n : ℕ) (fs : Frames)
    → Distinct fs.array
    → Guarded fs
    → (pfns : List ℕ) × (fs' : Frames) × (((take_frames n fs ≡ (success, pfns, fs'))
          × Taken n fs pfns fs')
        ⊎ ((take_frames n fs ≡ (error, pfns, fs')) × AllTaken n fs pfns fs'))
unfolding take_frames get_frame
take_frames-Taken zero fs d g = (
  [],
  fs,
  inl (
    refl,
    record { size = refl; less = omega arith; were_free = λ q e. cc; only_them = λ q. refl },
  ),
)
take_frames-Taken (suc n) fs d g = elim (Bool-cases (ltb 0 (count_free fs.array))) [
  | inr full ↦
      let z : count_free fs.array ≡ 0 = ground arith in
      (
        [],
        fs,
        inr (
          ground (arith, get_frame-full fs z, g),
          record { size = sym z; short = omega arith; same = λ q. refl },
        ),
      )
  | inl some_free ↦
      let (p, fs₁, e) = get_frame-total fs (ground arith) in
      let (was, less, only, g₁) = get_frame-Takes fs p fs₁ d g e in
      let (ps, fs₂, r) = take_frames-Taken n fs₁ (get_frame-Distinct fs fs₁ (some p) d e) g₁ in
      elim r [
        | inl (run, t) ↦ (
          p ∷ ps,
          fs₂,
          inl (
            ground (arith, e, run),
            record {
              size = omega (arith, t.size);
              less = omega (arith, less, t.less);
              were_free = λ q here. first_free q p ps fs fs₁ was (only q) (t.were_free q) here;
              only_them = λ q. ground (arith, t.only_them q, only q);
            },
          ),
        )
        | inr (run, t) ↦ (
          p ∷ ps,
          fs₂,
          inr (
            ground (arith, e, run),
            record {
              size = omega (arith, t.size, less);
              short = omega (arith, t.short, less);
              same = λ q. ground (arith, t.same q, e, get_frame_loop-known q fs.array fs.past);
            },
          ),
        )
      ]
]

free_stack-keeps :
    (q : ℕ) (ps : List ℕ) (fs : Frames)
    → known q fs.array ≡ true
    → free_at q fs.array ≡ true
    → free_at q (free_stack ps fs).array ≡ true
unfolding free_stack
free_stack-keeps q [] fs k e = e
free_stack-keeps q (p ∷ ps) fs k e =
    free_stack-keeps q ps (free_frame fs p) (free_frame-known fs p q ∙ k)
      (ground (arith, free_frame-free_at fs p q, k, e))

free_stack-frees :
    (q : ℕ) (ps : List ℕ) (fs : Frames)
    → known q fs.array ≡ true
    → among q ps ≡ true
    → free_at q (free_stack ps fs).array ≡ true
unfolding free_stack
free_stack-frees q [] fs k e = cc
free_stack-frees q (p ∷ ps) fs k e =
    let k₁ : known q (free_frame fs p).array ≡ true = free_frame-known fs p q ∙ k in
    elim (Bool-cases (p == q)) [
      | inl same ↦
          free_stack-keeps q ps (free_frame fs p) k₁ (ground (arith, free_frame-free_at fs p q, k))
      | inr other ↦ free_stack-frees q ps (free_frame fs p) k₁ (ground (arith, e))
    ]

among-append : (q : ℕ) (ps qs : List ℕ) → among q qs ≡ true → among q (ps ++ qs) ≡ true
among-append q [] qs e = e
among-append q (p ∷ ps) qs e = ground (arith, among-append q ps qs e)

init_stack-short :
    (n : ℕ) (garbage pfns : List ℕ) (fs : Frames) (p : Ptr) (children : Option (HashMap Ptr))
    (table : List Pte) (k : Kernel)
    → take_frames n k.frames ≡ (error, pfns, fs)
    → init_stack n garbage p children table k ≡ (
      none,
      record k {
        next_pid = k.next_pid + 1;
        frames = free_stack (pfns ++ drop (length pfns) garbage) fs;
      },
    )
unfolding init_stack
init_stack-short n garbage pfns fs p children table k e = ground (arith, e)

-- With distinct frames, fewer of them free than a kernel stack needs and memory behind the list
-- that does not read as a free frame, `initPCB` makes no process, and a frame whose number the new
-- memory happens to hold behind the frames that were got is free afterwards, in use or not.
pub init_stack-frees_garbage :
    (n q : ℕ) (garbage : List ℕ) (p : Ptr) (children : Option (HashMap Ptr)) (table : List Pte)
    (k : Kernel)
    → Distinct k.frames.array
    → Guarded k.frames
    → count_free k.frames.array < n
    → known q k.frames.array ≡ true
    → among q (drop (count_free k.frames.array) garbage) ≡ true
    → (init_stack n garbage p children table k).0 ≡ none
      × (free_at q (init_stack n garbage p children table k).1.frames.array ≡ true)
init_stack-frees_garbage n q garbage p children table k d g few is_known old =
    let (pfns, fs, r) = take_frames-Taken n k.frames d g in
    elim r [
      | inl (run, t) ↦ absurd (omega (arith, t.less))
      | inr (run, t) ↦
          let in_list : among q (pfns ++ drop (length pfns) garbage) ≡ true =
            among-append q pfns _ (rw t.size old) in
          let done = init_stack-short n garbage pfns fs p children table k run in
          (
            ap (λ (z : Option Ptr × Kernel). z.0) done,
            ap (λ (z : Option Ptr × Kernel). free_at q z.1.frames.array) done
                ∙ free_stack-frees q (pfns ++ drop (length pfns) garbage) fs (t.same q ∙ is_known)
                    in_list,
          )
    ]
