-- ===== src/Boot/Start/Buffers.antt =====
-- What `initBuffers` of TtyBuffer.c leaves of the state and of the table of region 0.
use yallnix.Prelude.{
  ℕ, zero, suc, ◌≡◌, sym, ap, ◌∙◌, List, ok, null, ◌==◌, >>=-eq-ok, ok-injective, Bool-cases, inl,
  inr, Status, error, success, drop, ◌<◌,
}
use yallnix.PageTable.{Pte}
use yallnix.Brk.{Memory, validate_page}
use yallnix.Brk.Entry.{validate_page-drop}
use yallnix.Kernel.{Kernel, fresh, took}
use yallnix.Terminal.{init_buffers_loop, init_buffers}
use yallnix.Boot.Start.Quiet.{Quiet, Quiet-refl, Quiet-took, Quiet-then}

init_buffers_loop-Quiet : (n : ℕ) (k : Kernel) → Quiet k (init_buffers_loop n k).2
unfolding init_buffers_loop
init_buffers_loop-Quiet zero k = Quiet-refl k
init_buffers_loop-Quiet (suc n) k = elim (Bool-cases (fresh k == null)) [
  | inl out ↦ rw out (Quiet-took k)
  | inr got ↦ rw got (Quiet-then (Quiet-took k) (init_buffers_loop-Quiet n (took k)))
]

buffers-Quiet :
    (n : ℕ) (table : List Pte) (k k' : Kernel) (st : Status) (mem : Memory) (table' : List Pte)
    → ok (elim st as (λ _. Status × (List Pte × Kernel)) [
      | error ↦ (error, (mem.table, record k { frames = mem.frames }))
      | success ↦ (
        (init_buffers_loop n (record k { frames = mem.frames })).0,
        (
          mem.table,
          record (init_buffers_loop n (record k { frames = mem.frames })).2 {
            buffers = (init_buffers_loop n (record k { frames = mem.frames })).1;
          },
        ),
      )
    ])
      ≡ ok (success, (table', k'))
    → Quiet k k'
buffers-Quiet n table k k' error mem table' e = cc
buffers-Quiet n table k k' success mem table' e =
    let k₁ : Kernel = record k { frames = mem.frames } in
    let end : record (init_buffers_loop n k₁).2 { buffers = (init_buffers_loop n k₁).1 } ≡ k' =
      ap (λ (z : Status × (List Pte × Kernel)). z.1.1) (ok-injective _ _ e) in
    let q = init_buffers_loop-Quiet n k₁ in
    record {
      curr = ap (λ z. z.curr) (sym end) ∙ q.curr;
      transmitters = ap (λ z. z.transmitters) (sym end) ∙ q.transmitters;
      stack_map = ap (λ z. z.stack_map) (sym end) ∙ q.stack_map;
      taken = q.taken;
      mallocs = λ i. ap (λ z. z.mallocs i) (sym end) ∙ q.mallocs i;
    }

buffers-table :
    (n : ℕ) (table : List Pte) (k k' : Kernel) (st : Status) (mem : Memory) (table' : List Pte)
    → ok (elim st as (λ _. Status × (List Pte × Kernel)) [
      | error ↦ (error, (mem.table, record k { frames = mem.frames }))
      | success ↦ (
        (init_buffers_loop n (record k { frames = mem.frames })).0,
        (
          mem.table,
          record (init_buffers_loop n (record k { frames = mem.frames })).2 {
            buffers = (init_buffers_loop n (record k { frames = mem.frames })).1;
          },
        ),
      )
    ])
      ≡ ok (success, (table', k'))
    → mem.table ≡ table'
buffers-table n table k k' error mem table' e = cc
buffers-table n table k k' success mem table' e =
    ap (λ (z : Status × (List Pte × Kernel)). z.1.0) (ok-injective _ _ e)

-- The entries behind the page for the buffers stay.
pub init_buffers-drop :
    (entry n s : ℕ) (table table' : List Pte) (k k' : Kernel)
    → entry < s
    → init_buffers entry n table k ≡ ok (success, (table', k'))
    → drop s table' ≡ drop s table
unfolding init_buffers
init_buffers-drop entry n s table table' k k' lt e =
    let mem₀ : Memory = record { table = table; frames = k.frames } in
    let (r, e₁, e₂) = >>=-eq-ok (validate_page entry mem₀) _ e in
    ap (drop s) (sym (buffers-table n table k k' r.0 r.1 table' e₂))
    ∙ validate_page-drop entry s lt mem₀ r.1 r.0 e₁

pub init_buffers-Quiet :
    (entry n : ℕ) (table table' : List Pte) (k k' : Kernel)
    → init_buffers entry n table k ≡ ok (success, (table', k'))
    → Quiet k k'
unfolding init_buffers
init_buffers-Quiet entry n table table' k k' e =
    let (r, e₁, e₂) =
      >>=-eq-ok (validate_page entry (record { table = table; frames = k.frames })) _ e in
    buffers-Quiet n table k k' r.0 r.1 table' e₂
