-- ===== src/Loading/Refusal.antt =====
-- `LoadProgram` that returns ERROR.
use yallnix.Prelude.{
  ℕ, ◌≡◌, ◌≢◌, sym, ap, Bool, true, false, Option, none, some, List, Run, ok, ltb, leb, ◌+◌,
  if◌then◌else◌, Status, error, success, >>=-eq-ok, ok-injective, Bool-cases, inl, inr,
}
use yallnix.Hardware.{Hardware}
use yallnix.Brk.{Memory}
use yallnix.Loading.{
  Constants, File, LoadInfo, Process, LoadStatus, not_loaded, kill, load_program, load_pages,
  finish_load, map_pages, stack_pages, stack_pointer, data_page, data_pages, protect_pages,
}

finish_load-commits :
    (hw : Hardware) (file : File) (li : LoadInfo) (st : Status) (p p' : Process) (mem : Memory)
    → finish_load hw file li st p mem ≢ ok (not_loaded, p')
unfolding finish_load
finish_load-commits hw file li error p p' mem e = cc
finish_load-commits hw file li success p p' mem e = elim (Bool-cases file.text_read) [
  | inr off ↦ cc (rw off at e)
  | inl text ↦ elim (Bool-cases file.data_read) [
    | inr off ↦ cc (rw (text, off) at e)
    | inl data_ok ↦
        let (m, e₁, e₂) = >>=-eq-ok (protect_pages li.t_npg _ mem) _ (rw (text, data_ok) at e) in cc
  ]
]

load_pages-commits :
    (hw : Hardware) (file : File) (li : LoadInfo) (n : ℕ) (p p' : Process)
    → load_pages hw file li n p ≢ ok (not_loaded, p')
unfolding load_pages
load_pages-commits hw file li n p p' e =
    let ((st, done, mem), e₁, e₂) = >>=-eq-ok (map_pages _ _ _ _ _ _ _) _ e in
    finish_load-commits hw file li st _ p' mem e₂

pub load_program-refuses :
    (hw : Hardware) (c : Constants) (file : File) (lens : List ℕ) (p p' : Process)
    → load_program hw c file lens p ≡ ok (not_loaded, p')
    → p' ≡ p
unfolding load_program
load_program-refuses hw c file lens p p' e = elim (Bool-cases file.is_open) [
  | inr off ↦ same (rw off at e)
  | inl on ↦ opened file.info (rw on at e)
]
  where
    refused : Process → Run (LoadStatus × Process)
    refused q = ok (not_loaded, q)

    same : refused p ≡ refused p' → p' ≡ p
    same h = sym (ap (λ (z : LoadStatus × Process). z.1) (ok-injective _ _ h))

    q : Process
    q = record p { sp = stack_pointer hw c lens }

    committed :
        (li : LoadInfo) (b : Bool)
        → (if b then load_pages hw file li (stack_pages hw c lens) q else ok (kill, q)) ≡ refused p'
        → p' ≡ p
    committed li true h = absurd (load_pages-commits hw file li (stack_pages hw c lens) q p' h)
    committed li false h = absurd (cc h)

    opened :
        (info : Option LoadInfo)
        → elim info as (λ _. Run (LoadStatus × Process)) [
          | none ↦ ok (not_loaded, p)
          | some li ↦
              if ltb li.entry hw.vmem_1_base
              then ok (not_loaded, p)
              else if leb hw.max_pt_len (stack_pages hw c lens + data_page hw li + data_pages li)
              then ok (not_loaded, p)
              else if file.has_buffer
              then load_pages hw file li
                  (stack_pages hw c lens)
                  (record p { sp = stack_pointer hw c lens })
              else ok (kill, record p { sp = stack_pointer hw c lens })
        ]
          ≡ ok (not_loaded, p')
        → p' ≡ p
    opened none h = same h
    opened (some li) h = elim (Bool-cases (ltb li.entry hw.vmem_1_base)) [
      | inl low ↦ same (rw low at h)
      | inr high ↦
          elim (Bool-cases
            (leb hw.max_pt_len (stack_pages hw c lens + data_page hw li + data_pages li))) [
              | inl large ↦ same (rw (high, large) at h)
              | inr small ↦ committed li file.has_buffer (rw (high, small) at h)
            ]
    ]
