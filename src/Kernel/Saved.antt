-- ===== src/Kernel/Saved.antt =====
-- The context that a switch saves for the process that gives the processor up.
use yallnix.Prelude.{
  ◌≡◌, refl, some, ok, deref, Ptr, arith, >>=-eq-ok, deref-eq, Option-cases, inl, inr,
}
use yallnix.Kernel.{Kernel, Pcb, Resume}
use yallnix.Kernel.Switch.{switch_between, run_next, save_context}
use yallnix.Kernel.Current.{save_context-eq}

-- The process goes on at `here` when it runs again.
pub record Saved (here : Resume) (p : Ptr) (k : Kernel) : Type 0 where
  pub pcb : Pcb
  pub alive : k.pcbs p ≡ some pcb
  pub context : pcb.kctxt ≡ some here

run_next-Saved :
    (here : Resume) (p next : Ptr) (k k' : Kernel)
    → run_next next k ≡ ok k'
    → Saved here p k
    → Saved here p k'
unfolding run_next
run_next-Saved here p next k k' e s =
    let (pcb, e₁, e₂) = >>=-eq-ok (deref (k.pcbs next)) _ e in
    let at : k.pcbs next ≡ some pcb = deref-eq (k.pcbs next) pcb e₁ in
    elim (Option-cases pcb.kctxt) [
      | inl new ↦ record {
        pcb = s.pcb;
        alive = ground (arith, at, s.alive, s.context);
        context = s.context;
      }
      | inr (c, has) ↦ record { pcb = s.pcb; alive = ground (arith, s.alive); context = s.context }
    ]

pub switch_between-Saved :
    (here : Resume) (p next : Ptr) (k k' : Kernel)
    → switch_between here (some p) next k ≡ ok k'
    → Saved here p k'
unfolding switch_between
switch_between-Saved here p next k k' e =
    let (k₁, e₁, e₂) = >>=-eq-ok (save_context here p k) _ e in
    let (pcb, at, eq) = save_context-eq here p k k₁ e₁ in
    run_next-Saved here p next k₁ k' e₂ (record {
      pcb = record pcb { kctxt = some here };
      alive = ground (arith, eq);
      context = refl;
    })
