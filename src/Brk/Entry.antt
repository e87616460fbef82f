-- ===== src/Brk/Entry.antt =====
-- What `validate_page` leaves of the table.
use yallnix.Prelude.{
  ℕ, zero, suc, ◌<◌, ◌≡◌, refl, sym, ap, ◌∙◌, Option, none, some, List, [], ◌∷◌, Run, ok, ◌>>=◌,
  deref, Status, error, success, get_elem?, set, drop, true, arith, >>=-eq-ok, ok-injective,
}
use yallnix.FrameList.{get_frame_loop}
use yallnix.PageTable.{Pte, read_write}
use yallnix.Brk.{Memory, write_pte, validate_page}

drop-set : (i s : ℕ) (e : Pte) (t : List Pte) → i < s → drop s (set t i e) ≡ drop s t
drop-set i zero e t lt = absurd (omega arith)
drop-set i (suc s) e [] lt = refl
drop-set zero (suc s) e (x ∷ t) lt = refl
drop-set (suc i) (suc s) e (x ∷ t) lt = drop-set i s e t (omega arith)

module _ (i s : ℕ) (lt : i < s) where
  written :
      (e : Pte) (mem mem' : Memory)
      → write_pte i e mem ≡ ok mem'
      → drop s mem'.table ≡ drop s mem.table
  written e mem mem' h =
      let (old, h₁, h₂) = >>=-eq-ok (deref (get_elem? mem.table i)) _ h in
      ap (λ (m : Memory). drop s m.table) (sym (ok-injective _ _ h₂)) ∙ drop-set i s e mem.table lt

  from_frame :
      (got : Option ℕ) (mem mem' : Memory) (st : Status)
      → elim got as (λ _. Run (Status × Memory)) [
        | none ↦ ok (error, mem)
        | some pfn ↦ do
          mem₂ ← write_pte i (record { valid = true; prot = read_write; pfn = pfn }) mem
          ok (success, mem₂)
      ]
        ≡ ok (st, mem')
      → drop s mem'.table ≡ drop s mem.table
  from_frame none mem mem' st h =
      ap (λ (r : Status × Memory). drop s r.1.table) (sym (ok-injective _ _ h))
  from_frame (some pfn) mem mem' st h =
      let (m₂, h₁, h₂) =
        >>=-eq-ok (write_pte i (record { valid = true; prot = read_write; pfn = pfn }) mem) _ h in
      ap (λ (r : Status × Memory). drop s r.1.table) (sym (ok-injective _ _ h₂))
      ∙ written (record { valid = true; prot = read_write; pfn = pfn }) mem m₂ h₁

  -- The entries behind the page stay.
  pub validate_page-drop :
      (mem mem' : Memory) (st : Status)
      → validate_page i mem ≡ ok (st, mem')
      → drop s mem'.table ≡ drop s mem.table
  unfolding validate_page
  validate_page-drop mem mem' st h =
      let r = get_frame_loop mem.frames.array mem.frames.past in
      from_frame r.0 (record mem { frames = record { array = r.1; past = r.2 } }) mem' st h
