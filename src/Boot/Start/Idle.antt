-- ===== src/Boot/Start/Idle.antt =====
-- The second process of KernelStart of Kernel.c, "idle", and the state behind `initProcess` of
-- Scheduler.c.
use yallnix.Prelude.{
  ℕ, suc, ◌+◌, ◌≡◌, ◌≢◌, refl, sym, ap, ◌∙◌, Option, none, some, List, Run, ok, deref, Ptr, null,
  ◌==◌, arith, subst, >>=-eq-ok, Status, error, success,
}
use yallnix.Hardware.{Hardware}
use yallnix.Kernel.{Kernel, fresh, enq_ready}
use yallnix.Set.Count.{to_nat}
use yallnix.Scheduler.Creation.{init_pcb, init_process}
use yallnix.Scheduler.Places.{places, enq_ready-places}
use yallnix.Loading.{load_idle}
use yallnix.KernelCalls.Exec.{image_of}
use yallnix.Boot.Halting.{>>=-eq-some, need, need-eq, runs, must, goes-injective}
use yallnix.Boot.Start.{Given, start_idle, set_image_of}
use yallnix.Boot.Start.First.{both}
use yallnix.Boot.Start.Born.{Born, init_pcb-Born}

-- A process that `initProcess` has made and put into the ready queue.
pub record Admitted (k : Kernel) (p : Ptr) (k' : Kernel) : Type 0 where
  pub is : p ≡ fresh k
  pub not_null : p ≢ null
  pub curr : k'.curr ≡ k.curr
  pub stack_map : k'.stack_map ≡ k.stack_map
  pub placed : (x : Ptr) → places x k' ≡ places x k + to_nat (p == x)
  pub mallocs : (i : ℕ) → k'.mallocs i ≡ k.mallocs (16 + i)

queued-Admitted :
    (k k' k₁ : Kernel) (p q : Ptr) (r : Status × Kernel)
    → enq_ready q k₁ ≡ r
    → Born 15 k q k₁
    → elim r.0 as (λ _. Run (Option Ptr × Kernel)) [
      | error ↦ ok (none, r.1)
      | success ↦ ok (some q, r.1)
    ]
      ≡ ok (some p, k')
    → Admitted k p k'
unfolding places
queued-Admitted k k' k₁ p q (error, k₂) eq b f = cc
queued-Admitted k k' k₁ p q (success, k₂) eq b f =
    let (is, state) = both q p k₂ k' f in
    let end : (enq_ready q k₁).1 ≡ k' = ap (λ (z : Status × Kernel). z.1) eq ∙ state in
    subst (λ z. Admitted k z k') is
      (record {
        is = b.is;
        not_null = b.not_null;
        curr = ap (λ z. z.curr) (sym end) ∙ b.curr;
        stack_map = ap (λ z. z.stack_map) (sym end) ∙ b.stack_map;
        placed = λ x. omega (
          arith,
          enq_ready-places x q k₁ k₂ eq,
          ap (places x) state,
          ap (λ c. to_nat (c == x)) b.curr,
          b.waiting x,
        );
        mallocs =
            λ i. ap (λ z. z.mallocs i) (sym end) ∙ b.mallocs (suc i) ∙ ap k.mallocs (omega arith);
      })

init_process-Admitted :
    (hw : Hardware) (n : ℕ) (garbage : List ℕ) (k k' : Kernel) (p : Ptr)
    → init_process hw n garbage k ≡ ok (some p, k')
    → Admitted k p k'
unfolding init_process
init_process-Admitted hw n garbage k k' p e =
    let ((made, k₁), e₁, e₂) = >>=-eq-ok (init_pcb hw n garbage k) _ e in from made k₁ e₁ e₂
  where
    from :
        (made : Option Ptr) (k₁ : Kernel)
        → init_pcb hw n garbage k ≡ ok (made, k₁)
        → elim made as (λ _. Run (Option Ptr × Kernel)) [
          | none ↦ ok (none, k₁)
          | some q ↦ elim (enq_ready q k₁).0 as (λ _. Run (Option Ptr × Kernel)) [
            | error ↦ ok (none, (enq_ready q k₁).1)
            | success ↦ ok (some q, (enq_ready q k₁).1)
          ]
        ]
          ≡ ok (some p, k')
        → Admitted k p k'
    from none k₁ e₁ e₂ = cc
    from (some q) k₁ e₁ e₂ =
        queued-Admitted k k' k₁ p q (enq_ready q k₁) refl (init_pcb-Born hw n garbage k k₁ q e₁) e₂

-- "idle", with its page of stack, is made and is ready.
pub start_idle-Admitted :
    (g : Given) (k k' : Kernel) (p : Ptr) → start_idle g k ≡ ok (some (p, k')) → Admitted k p k'
unfolding start_idle places
start_idle-Admitted g k k' p e =
    let ((q, k₁), e₁, f₁) = >>=-eq-some (need (init_process g.hw g.stack_pages g.garbage k)) _ e in
    let (pcb, e₂, f₂) = >>=-eq-some (runs (deref (k₁.pcbs q))) _ f₁ in
    let (im, e₃, f₃) =
      >>=-eq-some (must (load_idle g.hw g.constants g.do_idle (image_of pcb k₁))) _ f₂ in
    let same : q ≡ p = ap (λ (z : Ptr × Kernel). z.0) (goes-injective _ _ f₃) in
    let end : set_image_of q pcb im k₁ ≡ k' =
      ap (λ (z : Ptr × Kernel). z.1) (goes-injective _ _ f₃) in
    let a : Admitted k q k₁ =
      init_process-Admitted g.hw g.stack_pages g.garbage k k₁ q
        (need-eq (init_process g.hw g.stack_pages g.garbage k) q k₁ e₁) in
    subst (λ z. Admitted k z k') same
      (record {
        is = a.is;
        not_null = a.not_null;
        curr = ap (λ z. z.curr) (sym end) ∙ a.curr;
        stack_map = ap (λ z. z.stack_map) (sym end) ∙ a.stack_map;
        placed = λ x. ap (places x) (sym end) ∙ a.placed x;
        mallocs = λ i. ap (λ z. z.mallocs i) (sym end) ∙ a.mallocs i;
      })
