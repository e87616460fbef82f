-- ===== src/Brk/Pages.antt =====
-- What the two loops do to the table and to the frame list.
use yallnix.Prelude.{
  ℕ, zero, suc, ◌+◌, ◌<◌, ◌≤◌, ◌≡◌, refl, Bool, true, false, ◌&&◌, Option, none, some, List, [],
  ◌∷◌, Run, ok, Status, error, success, ltb, leb, ◌==◌, if◌then◌else◌, get_elem?, set, arith,
  length, length-set, Bool-cases, ◌⊎◌, ◌∙◌, inl, inr, get_elem?_of_lt, get_elem?-set_ne,
  get_elem?-set_self, ◌≢◌,
}
use yallnix.FrameList.{get_frame}
use yallnix.FrameList.Alloc.{
  count_free, free_at, Distinct, Guarded, get_frame-Takes, get_frame-total, get_frame-full,
  get_frame-Distinct,
}
use yallnix.PageTable.{Pte, read_write}
use yallnix.Brk.{Memory, validate_page, validate_pages}

-- A page is mapped: its entry is valid.
abbrev pub is_valid : Option Pte → Bool
is_valid none = false
is_valid (some e) = e.valid

abbrev pub mapped : ℕ → Memory → Bool
mapped i mem = is_valid (get_elem? mem.table i)

-- The frames are numbered apart, and the memory behind the frame list looks taken.
pub record Sound (mem : Memory) : Type 0 where
  pub distinct : Distinct mem.frames.array
  pub guarded : Guarded mem.frames

-- The entry `j` is new, for reading and writing, on a frame that was free.
pub record Fresh (j : ℕ) (old mem : Memory) : Type 0 where
  pub pfn : ℕ
  pub entry : get_elem? mem.table j ≡ some (record { valid = true; prot = read_write; pfn = pfn })
  pub was_free : free_at pfn old.frames.array ≡ true

-- One round: a frame is free, so the page at `i` is mapped to one, and no other page changes.
pub record Validated (i : ℕ) (mem mem' : Memory) : Type 0 where
  pub same_length : length mem'.table ≡ length mem.table
  pub one_less : count_free mem'.frames.array + 1 ≡ count_free mem.frames.array
  pub maps : (j : ℕ) → mapped j mem' ≡ (if i == j then true else mapped j mem)
  pub others : (j : ℕ) → i ≢ j → get_elem? mem'.table j ≡ get_elem? mem.table j
  pub fresh : Fresh i mem mem'
  pub fewer : (q : ℕ) → free_at q mem'.frames.array ≡ true → free_at q mem.frames.array ≡ true
  pub sound : Sound mem'

pub mapped-set :
    (table : List Pte) (i j : ℕ) (e : Pte)
    → i < length table
    → is_valid (get_elem? (set table i e) j)
      ≡ (if i == j then e.valid else is_valid (get_elem? table j))
mapped-set [] i j e lt = absurd (omega arith)
mapped-set (x ∷ table) zero zero e lt = refl
mapped-set (x ∷ table) zero (suc j) e lt = ground arith
mapped-set (x ∷ table) (suc i) zero e lt = ground arith
mapped-set (x ∷ table) (suc i) (suc j) e lt = ground (arith, mapped-set table i j e (omega arith))

pub validate_page-Validated :
    (i : ℕ) (mem : Memory)
    → i < length mem.table
    → 0 < count_free mem.frames.array
    → Sound mem
    → (mem' : Memory) × (validate_page i mem ≡ ok (success, mem')) × Validated i mem mem'
unfolding validate_page get_frame
validate_page-Validated i mem lt free s =
    let (p, fs, e) = get_frame-total mem.frames free in
    let (was, less, only, g) = get_frame-Takes mem.frames p fs s.distinct s.guarded e in
    let (old, at) = get_elem?_of_lt mem.table i lt in
    let entry : Pte = record { valid = true; prot = read_write; pfn = p } in
    (
      record { table = set mem.table i entry; frames = fs },
      ground (arith, e, at),
      record {
        same_length = length-set mem.table i entry;
        one_less = less;
        maps = λ j. mapped-set mem.table i j entry lt;
        others = λ j ne. get_elem?-set_ne mem.table entry ne;
        fresh = record { pfn = p; entry = get_elem?-set_self mem.table i entry lt; was_free = was };
        fewer = λ q free_now. ground (arith, only q, free_now);
        sound = record {
          distinct = get_frame-Distinct mem.frames fs (some p) s.distinct e;
          guarded = g;
        };
      },
    )

pub validate_page-full :
    (i : ℕ) (mem : Memory)
    → count_free mem.frames.array ≡ 0
    → Guarded mem.frames
    → validate_page i mem ≡ ok (error, mem)
unfolding validate_page get_frame
validate_page-full i mem z g = ground (arith, get_frame-full mem.frames z)

-- The pages from `i` on, `n` of them.
abbrev pub within : ℕ → ℕ → ℕ → Bool
within i n j = leb i j && ltb j (i + n)

-- With a free frame for each page, all the pages of the range are mapped and no other changes, and
-- as many frames fewer are free.
pub validate_pages-mapped :
    (n i : ℕ) (mem : Memory)
    → i + n ≤ length mem.table
    → n ≤ count_free mem.frames.array
    → Sound mem
    → (mem' : Memory) × (validate_pages n i mem ≡ ok (success, mem'))
      × (count_free mem'.frames.array + n ≡ count_free mem.frames.array)
      × ((j : ℕ) → mapped j mem' ≡ (if within i n j then true else mapped j mem))
      × Sound mem'
unfolding validate_pages
validate_pages-mapped zero i mem fits free s = (mem, refl, omega arith, λ j. ground arith, s)
validate_pages-mapped (suc n) i mem fits free s =
    let (m₁, e, v) = validate_page-Validated i mem (omega arith) (omega arith) s in
    let (m₂, e₂, less, maps, s₂) =
      validate_pages-mapped n (i + 1) m₁ (omega (arith, v.same_length)) (omega (arith, v.one_less))
        v.sound in
    (m₂, rw (e, e₂), omega (arith, v.one_less, less), λ j. ground (arith, maps j, v.maps j), s₂)

-- Too few free frames: ERROR, and every frame that was free is gone.
pub validate_pages-short :
    (n i : ℕ) (mem : Memory)
    → i + n ≤ length mem.table
    → count_free mem.frames.array < n
    → Sound mem
    → (mem' : Memory) × (validate_pages n i mem ≡ ok (error, mem'))
      × (count_free mem'.frames.array ≡ 0)
unfolding validate_pages
validate_pages-short zero i mem fits short s = absurd (omega arith)
validate_pages-short (suc n) i mem fits short s =
    elim (Bool-cases (ltb 0 (count_free mem.frames.array))) [
      | inl some_free ↦
          let (m₁, e, v) = validate_page-Validated i mem (omega arith) (ground arith) s in
          let (m₂, e₂, gone) =
            validate_pages-short n (i + 1) m₁ (omega (arith, v.same_length))
              (omega (arith, v.one_less)) v.sound in
          (m₂, rw (e, e₂), gone)
      | inr none_free ↦
          let z : count_free mem.frames.array ≡ 0 = ground arith in
          (mem, rw (validate_page-full i mem z s.guarded), z)
    ]

-- `n` pages are mapped from the entry `i` on.
pub record Range (n i : ℕ) (mem mem' : Memory) : Type 0 where
  pub same_length : length mem'.table ≡ length mem.table
  pub less : count_free mem'.frames.array + n ≡ count_free mem.frames.array
  pub maps : (j : ℕ) → mapped j mem' ≡ (if within i n j then true else mapped j mem)
  pub sound : Sound mem'

-- A range of pages is mapped, or the frames do not suffice and are all taken.
abbrev pub Maps : ℕ → ℕ → Memory → Memory → Run (Status × Memory) → Type 0
Maps n i mem mem' run =
    ((run ≡ ok (success, mem')) × Range n i mem mem')
    ⊎ ((run ≡ ok (error, mem'))
        × (count_free mem'.frames.array ≡ 0)
        × (count_free mem.frames.array < n))

pub validate_pages-Maps :
    (n i : ℕ) (mem : Memory)
    → i + n ≤ length mem.table
    → Sound mem
    → (mem' : Memory) × Maps n i mem mem' (validate_pages n i mem)
unfolding validate_pages
validate_pages-Maps zero i mem fits s = (
  mem,
  inl (
    refl,
    record { same_length = refl; less = omega arith; maps = λ j. ground arith; sound = s },
  ),
)
validate_pages-Maps (suc n) i mem fits s = elim (Bool-cases (ltb 0 (count_free mem.frames.array))) [
  | inr full ↦
      let z : count_free mem.frames.array ≡ 0 = ground arith in
      (mem, inr (rw (validate_page-full i mem z s.guarded) refl, z, omega arith))
  | inl free ↦
      let (m₁, run, v) = validate_page-Validated i mem (omega arith) (ground arith) s in
      let (m₂, r) = validate_pages-Maps n (i + 1) m₁ (omega (arith, v.same_length)) v.sound in
      elim r [
        | inl (run₂, g) ↦ (
          m₂,
          inl (
            rw run run₂,
            record {
              same_length = g.same_length ∙ v.same_length;
              less = omega (arith, g.less, v.one_less);
              maps = λ j. ground (arith, g.maps j, v.maps j);
              sound = g.sound;
            },
          ),
        )
        | inr (run₂, z, short) ↦ (m₂, inr (rw run run₂, z, omega (arith, short, v.one_less)))
      ]
]
