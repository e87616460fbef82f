-- ===== src/KernelCalls/Copying.antt =====
-- KernelFork: the address space of the child.
use yallnix.Prelude.{
  ℕ, zero, suc, ◌+◌, ◌<◌, ◌≡◌, refl, true, false, Option, none, some, List, [], ◌∷◌, ltb,
  if◌then◌else◌, ok, error, success, length, get_elem?, arith, ◌⊎◌, inl, inr, Bool-cases,
}
use yallnix.FrameList.{Frames, get_frame}
use yallnix.FrameList.Alloc.{
  count_free, free_at, Distinct, Guarded, get_frame-Takes, get_frame-total, get_frame-full,
  get_frame-Distinct,
}
use yallnix.PageTable.{Pte, Prot}
use yallnix.Scheduler.Stacks.{among, first_free}
use yallnix.KernelCalls.Fork.{copy_pages}

-- The protection of a page, if it is mapped.
abbrev pub access : Option Pte → Option Prot
access none = none
access (some e) = if e.valid then some e.prot else none

abbrev pub count_valid : List Pte → ℕ
count_valid [] = 0
count_valid (e ∷ table) = (if e.valid then 1 else 0) + count_valid table

-- The page frame numbers of the mapped pages.
abbrev pub frames_of : List Pte → List ℕ
frames_of [] = []
frames_of (e ∷ table) = if e.valid then e.pfn ∷ frames_of table else frames_of table

abbrev pub Unmapped : List Pte → Type 0
Unmapped [] = Unit {0}
Unmapped (e ∷ table) = (e.valid ≡ false) × Unmapped table

-- The child has the parent's pages, with the same protections, on frames that were free.
pub record Copied (parent child : List Pte) (fs fs' : Frames) : Type 0 where
  pub same_access : (j : ℕ) → access (get_elem? child j) ≡ access (get_elem? parent j)
  pub own : (q : ℕ) → among q (frames_of child) ≡ true → free_at q fs.array ≡ true
  pub taken :
      (q : ℕ)
      → free_at q fs'.array ≡ (if among q (frames_of child) then false else free_at q fs.array)
  pub less : count_free fs'.array + count_valid parent ≡ count_free fs.array

-- The loop of `KernelFork` over the pages, on a child that has no page mapped and a table as long
-- as the parent's, with distinct frames and memory behind the list that does not read as a free
-- frame: either the child gets exactly the pages of the parent with the same protections, on
-- frames that were all free, which are the only ones taken; or there are fewer free frames than
-- pages, ERROR is the result, and no frame is free afterwards.
pub copy_pages-Copied :
    (parent child : List Pte) (fs : Frames)
    → length child ≡ length parent
    → Unmapped child
    → Distinct fs.array
    → Guarded fs
    → (table : List Pte) × (fs' : Frames) × (((copy_pages parent child fs
            ≡ ok (success, table, fs'))
          × Copied parent table fs fs')
        ⊎ ((copy_pages parent child fs ≡ ok (error, table, fs'))
            × (count_free fs'.array ≡ 0)
            × (count_free fs.array < count_valid parent)))
unfolding copy_pages get_frame
copy_pages-Copied [] [] fs same u d g = (
  [],
  fs,
  inl (
    refl,
    record { same_access = λ j. refl; own = λ q e. cc; taken = λ q. refl; less = omega arith },
  ),
)
copy_pages-Copied [] (c ∷ child) fs same u d g = absurd (omega arith)
copy_pages-Copied (e ∷ parent) [] fs same u d g = absurd (omega arith)
copy_pages-Copied (e ∷ parent) (c ∷ child) fs same u d g = elim (Bool-cases e.valid) [
  | inr off ↦
      let (table, fs', r) = copy_pages-Copied parent child fs (omega arith) u.1 d g in
      elim r [
        | inl (run, t) ↦ (
          c ∷ table,
          fs',
          inl (
            ground (arith, off, run),
            record {
              same_access = λ j. heads j c e table parent (ground (arith, u.0, off)) t.same_access;
              own = λ q here. t.own q (ground (arith, here, u.0));
              taken = λ q. ground (arith, t.taken q, u.0);
              less = ground (arith, t.less, off);
            },
          ),
        )
        | inr (run, z, short) ↦
            (c ∷ table, fs', inr (ground (arith, off, run), z, ground (arith, off, short)))
      ]
  | inl on ↦ elim (Bool-cases (ltb 0 (count_free fs.array))) [
    | inr full ↦
        let z : count_free fs.array ≡ 0 = ground arith in
        (c ∷ child, fs, inr (ground (arith, on, get_frame-full fs z, g), z, ground (arith, on)))
    | inl free ↦
        let (p, fs₁, got) = get_frame-total fs (ground arith) in
        let (was, less, only, g₁) = get_frame-Takes fs p fs₁ d g got in
        let (table, fs', r) =
          copy_pages-Copied parent child fs₁ (omega arith) u.1
            (get_frame-Distinct fs fs₁ (some p) d got) g₁ in
        let e' : Pte = record { valid = true; prot = e.prot; pfn = p } in
        elim r [
          | inl (run, t) ↦ (
            e' ∷ table,
            fs',
            inl (
              ground (arith, on, got, run),
              record {
                same_access = λ j. heads j e' e table parent (ground (arith, on)) t.same_access;
                own = λ q here. first_free q p (frames_of table) fs fs₁ was (only q) (t.own q) here;
                taken = λ q. ground (arith, t.taken q, only q);
                less = ground (arith, t.less, less, on);
              },
            ),
          )
          | inr (run, z, short) ↦ (
            e' ∷ table,
            fs',
            inr (ground (arith, on, got, run), z, ground (arith, on, short, less)),
          )
        ]
  ]
]
  where
    heads :
        (j : ℕ) (a b : Pte) (xs ys : List Pte)
        → access (some a) ≡ access (some b)
        → ((i : ℕ) → access (get_elem? xs i) ≡ access (get_elem? ys i))
        → access (get_elem? (a ∷ xs) j) ≡ access (get_elem? (b ∷ ys) j)
    heads zero a b xs ys h t = h
    heads (suc j) a b xs ys h t = t j
