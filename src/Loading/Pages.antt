-- ===== src/Loading/Pages.antt =====
-- `LoadProgram`: which pages a program that is loaded has.
use yallnix.Prelude.{
  ℕ, zero, suc, ◌+◌, ◌-◌, ◌<◌, ◌≤◌, ◌≡◌, refl, ap, ◌∙◌, Bool, true, false, ◌||◌, List, [], ◌∷◌, ok,
  if◌then◌else◌, error, success, set, length, arith, ◌⊎◌, inl, inr, get_elem?_of_lt, length-set,
}
use yallnix.Hardware.{Hardware}
use yallnix.FrameList.{Frames, free_frame}
use yallnix.FrameList.Alloc.{count_free, Distinct, Guarded}
use yallnix.FrameList.Free.{free_frame_loop-Distinct}
use yallnix.PageTable.{Pte}
use yallnix.Brk.{Memory}
use yallnix.Brk.Pages.{Sound, mapped, mapped-set, within, validate_pages-Maps}
use yallnix.Loading.{
  LoadInfo, File, loaded, kill, Process, read_exec, set_brk, clear_pages, protect_pages,
  finish_load, map_pages, text_page, data_page, data_pages, load_pages,
}

clear_pages-mapped :
    (table : List Pte) (fs : Frames) (j : ℕ) → mapped j (clear_pages table fs) ≡ false
unfolding clear_pages
clear_pages-mapped [] fs zero = refl
clear_pages-mapped [] fs (suc j) = refl
clear_pages-mapped (e ∷ table) fs zero = refl
clear_pages-mapped (e ∷ table) fs (suc j) = clear_pages-mapped table _ j

clear_pages-length :
    (table : List Pte) (fs : Frames) → length (clear_pages table fs).table ≡ length table
unfolding clear_pages
clear_pages-length [] fs = refl
clear_pages-length (e ∷ table) fs = ap (λ n. suc n) (clear_pages-length table _)

record Good (fs : Frames) : Type 0 where
  distinct : Distinct fs.array
  guarded : Guarded fs

freed-Good : (b : Bool) (fs : Frames) (p : ℕ) → Good fs → Good (if b then free_frame fs p else fs)
unfolding free_frame
freed-Good true fs p g = record {
  distinct = free_frame_loop-Distinct p fs.array g.distinct;
  guarded = g.guarded;
}
freed-Good false fs p g = g

clear_pages-Good : (table : List Pte) (fs : Frames) → Good fs → Good (clear_pages table fs).frames
unfolding clear_pages
clear_pages-Good [] fs g = g
clear_pages-Good (e ∷ table) fs g = clear_pages-Good table _ (freed-Good e.valid fs e.pfn g)

clear_pages-Sound : (mem : Memory) → Sound mem → Sound (clear_pages mem.table mem.frames)
clear_pages-Sound mem s =
    let g =
      clear_pages-Good mem.table mem.frames
        (record { distinct = s.distinct; guarded = s.guarded }) in
    record { distinct = g.distinct; guarded = g.guarded }

-- `n` pages from the entry `i` on keep whether they are mapped.
protect_pages-mapped :
    (n i : ℕ) (mem : Memory)
    → i + n ≤ length mem.table
    → (mem' : Memory) × (protect_pages n i mem ≡ ok mem') × ((j : ℕ) → mapped j mem' ≡ mapped j mem)
unfolding protect_pages
protect_pages-mapped zero i mem fits = (mem, refl, λ j. refl)
protect_pages-mapped (suc n) i mem fits =
    let (e, at) = get_elem?_of_lt mem.table i (omega arith) in
    let e' : Pte = record e { prot = read_exec } in
    let m₁ : Memory = record mem { table = set mem.table i e' } in
    let (m₂, run, maps) =
      protect_pages-mapped n (i + 1) m₁ (omega (arith, length-set mem.table i e')) in
    (
      m₂,
      ground (arith, at, run),
      λ j. ground (arith, maps j, mapped-set mem.table i j e' (omega arith), at),
    )

-- The three ranges of pages are in the table.
pub record Fits (size text_pg text_npg data_pg data_npg stack_pg stack_npg : ℕ) : Type 0 where
  pub text : text_pg + text_npg ≤ size
  pub data_end : data_pg + data_npg ≤ size
  pub stack : stack_pg + stack_npg ≤ size

module _ (text_pg text_npg data_pg data_npg stack_pg stack_npg : ℕ) where
  -- The page is in one of the three ranges.
  abbrev pub in_program : ℕ → Bool
  in_program j =
      within text_pg text_npg j || (within data_pg data_npg j || within stack_pg stack_npg j)

  record Placed (mem mem' : Memory) : Type 0 where
    same_length : length mem'.table ≡ length mem.table
    less :
        count_free mem'.frames.array + (text_npg + data_npg + stack_npg)
        ≡ count_free mem.frames.array
    maps : (j : ℕ) → mapped j mem' ≡ (if in_program j then true else mapped j mem)

  map_pages-Placed :
      (mem : Memory)
      → Fits (length mem.table) text_pg text_npg data_pg data_npg stack_pg stack_npg
      → Sound mem
      → (mem' : Memory) × (((map_pages text_pg text_npg data_pg data_npg stack_pg stack_npg mem
              ≡ ok (success, true, mem'))
            × Placed mem mem')
          ⊎ (((done : Bool) × (map_pages text_pg text_npg data_pg data_npg stack_pg stack_npg mem
                  ≡ ok (error, done, mem')))
              × (count_free mem'.frames.array ≡ 0)
              × (count_free mem.frames.array < text_npg + data_npg + stack_npg)))
  unfolding map_pages
  map_pages-Placed mem f s =
      let (m₁, r₁) = validate_pages-Maps text_npg text_pg mem f.text s in
      elim r₁ [
        | inr (run, z, short) ↦ (m₁, inr ((false, ground (arith, run)), z, omega arith))
        | inl (run, g₁) ↦
            let (m₂, r₂) =
              validate_pages-Maps data_npg data_pg m₁ (omega (arith, f.data_end, g₁.same_length))
                g₁.sound in
            elim r₂ [
              | inr (run₂, z, short) ↦ (
                m₂,
                inr ((false, rw run (ground (arith, run₂))), z, omega (arith, short, g₁.less)),
              )
              | inl (run₂, g₂) ↦
                  let (m₃, r₃) =
                    validate_pages-Maps stack_npg stack_pg m₂
                      (omega (arith, f.stack, g₁.same_length, g₂.same_length)) g₂.sound in
                  elim r₃ [
                    | inr (run₃, z, short) ↦ (
                      m₃,
                      inr (
                        (true, rw (run, run₂, run₃) refl),
                        z,
                        omega (arith, short, g₁.less, g₂.less),
                      ),
                    )
                    | inl (run₃, g₃) ↦ (
                      m₃,
                      inl (
                        rw (run, run₂, run₃) refl,
                        record {
                          same_length = g₃.same_length ∙ g₂.same_length ∙ g₁.same_length;
                          less = omega (arith, g₁.less, g₂.less, g₃.less);
                          maps = λ j. ground (arith, g₁.maps j, g₂.maps j, g₃.maps j);
                        },
                      ),
                    )
                  ]
            ]
      ]

-- The pages of a program whose stack takes `n` pages.
abbrev pub ProgramFits : Hardware → LoadInfo → ℕ → ℕ → Type 0
ProgramFits hw li n size =
    Fits size (text_page hw li) li.t_npg (data_page hw li) (data_pages li) (hw.max_pt_len - n) n

abbrev pub in_image : Hardware → LoadInfo → ℕ → ℕ → Bool
in_image hw li n j =
    in_program (text_page hw li) li.t_npg (data_page hw li) (data_pages li) (hw.max_pt_len - n) n j

-- `LoadProgram` behind its checks, if both reads succeed, the pages of text, data and stack are in
-- the table and the frame list is sound: if the frames that are free once the old pages are freed
-- suffice, it succeeds and exactly the pages of text, data and stack are mapped; else it returns
-- KILL and no frame is free.
pub load_pages-in_image :
    (hw : Hardware) (file : File) (li : LoadInfo) (n : ℕ) (p : Process)
    → file.text_read ≡ true
    → file.data_read ≡ true
    → ProgramFits hw li n (length p.memory.table)
    → Sound p.memory
    → let spare : ℕ = count_free (clear_pages p.memory.table p.memory.frames).frames.array in
      let need : ℕ = li.t_npg + data_pages li + n in
      (p' : Process) × (((load_pages hw file li n p ≡ ok (loaded, p'))
          × (need ≤ spare)
          × ((j : ℕ) → mapped j p'.memory ≡ in_image hw li n j))
        ⊎ ((load_pages hw file li n p ≡ ok (kill, p'))
            × (spare < need)
            × (count_free p'.memory.frames.array ≡ 0)))
unfolding load_pages finish_load
load_pages-in_image hw file li n p text_ok data_ok f s =
    let old : Memory = clear_pages p.memory.table p.memory.frames in
    let sized = clear_pages-length p.memory.table p.memory.frames in
    let fits : ProgramFits hw li n (length old.table) = record {
      text = omega (arith, sized, f.text);
      data_end = omega (arith, sized, f.data_end);
      stack = omega (arith, sized, f.stack);
    } in
    let (mem, r) =
      map_pages-Placed (text_page hw li) li.t_npg (data_page hw li) (data_pages li)
        (hw.max_pt_len - n) n old fits (clear_pages-Sound p.memory s) in
    elim r [
      | inr ((done, run), z, short) ↦ (
        record (if done then set_brk hw li p else p) { memory = mem },
        inr (rw run refl, short, z),
      )
      | inl (run, g) ↦
          let (mem', prot, same) =
            protect_pages-mapped li.t_npg (text_page hw li) mem
              (omega (arith, fits.text, g.same_length)) in
          (
            record (set_brk hw li p) { pc = li.entry; memory = mem' },
            inl (
              rw (run, text_ok, data_ok, prot) refl,
              omega (arith, g.less),
              λ j.
                  ground
                    (arith, same j, g.maps j, clear_pages-mapped p.memory.table p.memory.frames j),
            ),
          )
    ]
