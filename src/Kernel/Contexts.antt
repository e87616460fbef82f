-- ===== src/Kernel/Contexts.antt =====
-- What a context switch changes in the process control blocks: saved contexts, and no more.
use yallnix.Prelude.{
  ℕ, suc, ◌≡◌, ◌≢◌, ap, ◌∙◌, Option, some, ok, deref, Ptr, null, ◌==◌, arith, ==_iff, >>=-eq-ok,
  deref-eq, Option-cases, Bool-cases, inl, inr, sym,
}
use yallnix.Kernel.{Kernel, Pcb, Resume, starter, update}
use yallnix.Kernel.Switch.{switch_between, run_next, save_context}
use yallnix.Kernel.Current.{save_context-eq}

-- Every block is there as before, but for its context.
abbrev pub KeepsBlocks : Kernel → Kernel → Type 0
KeepsBlocks k k' =
    (x : Ptr) (pcb : Pcb)
    → k.pcbs x ≡ some pcb
    → (c : Option Resume) × (k'.pcbs x ≡ some (record pcb { kctxt = c }))

kept : (a b : Ptr) → a ≢ null → b ≡ a → b ≢ null
kept a b ne e z = ne (sym e ∙ z)

pub record Same (k k' : Kernel) : Type 0 where
  pub blocks : KeepsBlocks k k'
  pub memory : ((n : ℕ) → k.mallocs n ≢ null) → (n : ℕ) → k'.mallocs n ≢ null

Same-set_pcb :
    (p : Ptr) (pcb : Pcb) (c : Option Resume) (k k' : Kernel)
    → k.pcbs p ≡ some pcb
    → k'.pcbs ≡ update k.pcbs p (some (record pcb { kctxt = c }))
    → KeepsBlocks k k'
Same-set_pcb p pcb c k k' at eq x b e = elim (Bool-cases (x == p)) [
  | inl same ↦
      let one : some pcb ≡ some b = sym at ∙ ap k.pcbs (sym ((==_iff x p).0 same)) ∙ e in
      let block : pcb ≡ b = cc in
      (c, ap (λ f. f x) eq ∙ rw same (ap (λ (z : Pcb). some (record z { kctxt = c })) block))
  | inr other ↦ (b.kctxt, ap (λ f. f x) eq ∙ rw other e)
]

run_next-Same : (next : Ptr) (k k' : Kernel) → run_next next k ≡ ok k' → Same k k'
unfolding run_next
run_next-Same next k k' e =
    let (pcb, e₁, e₂) = >>=-eq-ok (deref (k.pcbs next)) _ e in
    let at : k.pcbs next ≡ some pcb = deref-eq (k.pcbs next) pcb e₁ in
    elim (Option-cases pcb.kctxt) [
      | inl new ↦ record {
        blocks = Same-set_pcb next pcb (some starter) k k' at (ground (arith, new, e₂));
        memory =
            λ m n. kept (k.mallocs (suc n)) (k'.mallocs n) (m (suc n)) (ground (arith, new, e₂));
      }
      | inr (c, has) ↦ record {
        blocks = λ x b f. (b.kctxt, ground (arith, has, e₂, f));
        memory = λ m n. kept (k.mallocs n) (k'.mallocs n) (m n) (ground (arith, has, e₂));
      }
    ]

-- A switch changes no process but for its context, and leaves memory.
pub switch_between-Same :
    (here : Resume) (p next : Ptr) (k k' : Kernel)
    → switch_between here (some p) next k ≡ ok k'
    → Same k k'
unfolding switch_between
switch_between-Same here p next k k' e =
    let (k₁, e₁, e₂) = >>=-eq-ok (save_context here p k) _ e in
    let (pcb, at, eq) = save_context-eq here p k k₁ e₁ in
    let s : Same k₁ k' = run_next-Same next k₁ k' e₂ in
    record {
      blocks = λ x b f.
          let (c, g) = Same-set_pcb p pcb (some here) k k₁ at (ap (λ z. z.pcbs) eq) x b f in
          s.blocks x (record b { kctxt = c }) g;
      memory =
          λ m. s.memory (λ n. kept (k.mallocs n) (k₁.mallocs n) (m n) (ap (λ z. z.mallocs n) eq));
    }
