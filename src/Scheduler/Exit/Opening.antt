-- ===== src/Scheduler/Exit/Opening.antt =====
-- The process that runs next after one that keeps no context: the end of `exitProcess` of Scheduler.c.
use yallnix.Prelude.{
  ◌≡◌, ◌≢◌, refl, sym, ap, ◌∙◌, Option, none, some, List, ◌∷◌, ok, Ptr, arith, Option-cases, inl,
  inr,
}
use yallnix.Kernel.{Kernel, Pcb, Resume, starter, switched, took, set_pcb}
use yallnix.Kernel.Switch.{run_next, switch_between}
use yallnix.Scheduler.{run_ready}
use yallnix.Scheduler.Exit.Telling.{HasMemory}

-- The context in which a process goes on.
abbrev pub context_of : Option Resume → Resume
context_of none = starter
context_of (some c) = c

-- The process runs, and its block has changed in nothing but the context.
pub record Opened (next : Ptr) (b : Pcb) (k k' : Kernel) : Type 0 where
  pub runs : k'.curr ≡ next
  pub ready : k'.ready_q ≡ k.ready_q
  pub block : k'.pcbs next ≡ some (record b { kctxt = some (context_of b.kctxt) })
  pub others : (x : Ptr) → x ≢ next → k'.pcbs x ≡ k.pcbs x

run_next-Opened :
    (next : Ptr) (b : Pcb) (k : Kernel)
    → k.pcbs next ≡ some b
    → HasMemory k
    → (k' : Kernel) × (run_next next k ≡ ok k') × Opened next b k k'
unfolding run_next
run_next-Opened next b k at m = elim (Option-cases b.kctxt) [
  | inl new ↦ (
    record (set_pcb next (record b { kctxt = some starter })
        (took (record k { curr = next; stack_map = b.stack_pfns }))) { ptbr1 = next },
    ground (arith, at, new, m 0),
    record {
      runs = refl;
      ready = refl;
      block = ground (arith, new);
      others = λ x ne. ground (arith, ne);
    },
  )
  | inr (c, has) ↦ (
    record k { curr = next; stack_map = b.stack_pfns; ptbr1 = next },
    ground (arith, at, has),
    record {
      runs = refl;
      ready = refl;
      block =
          at
          ∙ ap (λ (o : Option Resume). some (record b { kctxt = o }))
              (has ∙ ap (λ o. some (context_of o)) (sym has));
      others = λ x ne. refl;
    },
  )
]

pub run_ready-Opened :
    (next : Ptr) (rest : List Ptr) (b : Pcb) (k : Kernel)
    → k.ready_q ≡ some (next ∷ rest)
    → k.pcbs next ≡ some b
    → HasMemory k
    → (k' : Kernel) × (run_ready starter none k ≡ ok (switched, k'))
      × Opened next b (record k { ready_q = some rest }) k'
unfolding run_ready switch_between
run_ready-Opened next rest b k ready at m =
    let (k', run, o) = run_next-Opened next b (record k { ready_q = some rest }) at m in
    (k', ground (arith, ready, run), o)
