-- ===== src/Brk/Release.antt =====
-- What invalidating a range of pages does to the table and to the frame list.
use yallnix.Prelude.{
  ℕ, zero, suc, ◌+◌, ◌<◌, ◌≤◌, ◌≡◌, ◌≢◌, refl, Bool, false, ◌||◌, Option, none, some, List, ok,
  ◌==◌, if◌then◌else◌, get_elem?, set, arith, length, length-set, get_elem?_of_lt, get_elem?-set_ne,
}
use yallnix.FrameList.{free_frame}
use yallnix.FrameList.Alloc.{free_at}
use yallnix.FrameList.Free.{known, free_frame-free_at, free_frame-known}
use yallnix.PageTable.{Pte}
use yallnix.Brk.{Memory, invalidate_page, invalidate_pages}
use yallnix.Brk.Pages.{mapped, mapped-set, within}

abbrev pub has_pfn : ℕ → Option Pte → Bool
has_pfn q none = false
has_pfn q (some e) = e.pfn == q

-- One of the `n` entries from `i` on holds the frame.
abbrev pub holds : ℕ → ℕ → ℕ → List Pte → Bool
holds q i zero table = false
holds q i (suc n) table = has_pfn q (get_elem? table i) || holds q (i + 1) n table

holds-set :
    (q i n k : ℕ) (e : Pte) (table : List Pte)
    → k < i
    → holds q i n (set table k e) ≡ holds q i n table
holds-set q i zero k e table lt = refl
holds-set q i (suc n) k e table lt =
    let ne : k ≢ i = omega arith in
    rw (get_elem?-set_ne table e ne, holds-set q (i + 1) n k e table (omega arith))

-- The pages of the range are no longer mapped, and no other changes; the frames in their entries are
-- free, and no other frame's state changes.
pub invalidate_pages-mapped :
    (n i : ℕ) (mem : Memory)
    → i + n ≤ length mem.table
    → (mem' : Memory) × (invalidate_pages n i mem ≡ ok mem')
      × ((j : ℕ) → mapped j mem' ≡ (if within i n j then false else mapped j mem))
      × ((q : ℕ)
          → free_at q mem'.frames.array ≡ (
              if holds q i n mem.table
              then known q mem.frames.array
              else free_at q mem.frames.array))
unfolding invalidate_pages invalidate_page
invalidate_pages-mapped zero i mem fits = (mem, refl, λ j. ground arith, λ q. refl)
invalidate_pages-mapped (suc n) i mem fits =
    let (e, at) = get_elem?_of_lt mem.table i (omega arith) in
    let dead : Pte = record e { valid = false } in
    let m₁ : Memory = record {
      table = set mem.table i dead;
      frames = free_frame mem.frames e.pfn;
    } in
    let (m₂, run, maps, frees) =
      invalidate_pages-mapped n (i + 1) m₁ (omega (arith, length-set mem.table i dead)) in
    (
      m₂,
      rw (at, run),
      λ j. ground (arith, maps j, mapped-set mem.table i j dead (omega arith)),
      λ q. ground (
        arith,
        frees q,
        at,
        holds-set q (i + 1) n i dead mem.table (omega arith),
        free_frame-free_at mem.frames e.pfn q,
        free_frame-known mem.frames e.pfn q,
      ),
    )
