-- ===== src/Scheduler/Rotation.antt =====
-- `kickProcess` of Scheduler.c, and which process runs next after a switch.
use yallnix.Prelude.{
  ◌≡◌, refl, sym, ap, ◌∙◌, Option, none, some, List, [], ◌∷◌, ◌++◌, ok, Ptr, null, ◌==◌, arith,
  >>=-eq-ok, ◌⊎◌, inl, inr, ◌≢◌, Option-cases, Bool-cases,
}
use yallnix.Fifo
use yallnix.Kernel.{
  Kernel, Pcb, Resume, starter, set_pcb, err, val, returned, switched, fresh, took,
}
use yallnix.Kernel.Switch.{switch_between, context_switch, run_next}
use yallnix.Kernel.Current.{Switched, switch_between-Switched}
use yallnix.Scheduler.{run_ready, kick_process}

none-ne-some {ℓ} : {A : Type ℓ} {a : A} → none ≡ some a → ⊥
none-ne-some e = cc

-- The oldest ready process has left the queue and runs.
pub record Ran (k k' : Kernel) : Type 0 where
  pub next : Ptr
  pub rest : List Ptr
  pub ready : k.ready_q ≡ some (next ∷ rest)
  pub switched_to : Switched next (record k { ready_q = some rest }) k'

pub context_switch-Switched :
    (here : Resume) (x : Option Ptr) (next : Ptr) (k k' : Kernel)
    → context_switch here x next k ≡ ok (switched, k')
    → Switched next k k'
context_switch-Switched here x next k k' e =
    let (k₁, e₁, e₂) = >>=-eq-ok (switch_between here x next k) _ e in
    let same : k₁ ≡ k' = ground (arith, e₂) in
    switch_between-Switched here x next k k' (e₁ ∙ ap ok same)

run_ready_from :
    (here : Resume) (x : Option Ptr) (k k' : Kernel) (q : Option (List Ptr))
    → k.ready_q ≡ q
    → run_ready here x k ≡ ok (switched, k')
    → Ran k k'
unfolding run_ready
run_ready_from here x k k' none eq e = cc (rw (eq, Fifo.deq) at e)
run_ready_from here x k k' (some []) eq e = cc (rw (eq, Fifo.deq) at e)
run_ready_from here x k k' (some (next ∷ rest)) eq e = record {
  next = next;
  rest = rest;
  ready = eq;
  switched_to =
      context_switch-Switched here x next (record k { ready_q = some rest }) k' (rw eq at e);
}

pub run_ready-Ran :
    (here : Resume) (x : Option Ptr) (k k' : Kernel)
    → run_ready here x k ≡ ok (switched, k')
    → Ran k k'
run_ready-Ran here x k k' e = run_ready_from here x k k' k.ready_q refl e

-- With no process ready the function returns ERROR, and the caller keeps the processor.
pub run_ready-idle :
    (here : Resume) (x : Option Ptr) (k : Kernel)
    → Fifo.peek k.ready_q ≡ none
    → run_ready here x k ≡ ok (returned err, k)
unfolding run_ready
run_ready-idle here x k e = ground arith

-- A process whose context can be saved.
pub record CanSave (k : Kernel) (p : Ptr) : Type 0 where
  pub pcb : Pcb
  pub old : Resume
  pub alive : k.pcbs p ≡ some pcb
  pub context : pcb.kctxt ≡ some old

-- A process that can go on: it has a saved context, or is new and `malloc` has memory for one.
pub record CanRun (k : Kernel) (p : Ptr) : Type 0 where
  pub pcb : Pcb
  pub alive : k.pcbs p ≡ some pcb
  pub context : ((c : Resume) × (pcb.kctxt ≡ some c)) ⊎ (fresh k ≢ null)

run_next-total :
    (next : Ptr) (k : Kernel) → CanRun k next → (k' : Kernel) × (run_next next k ≡ ok k')
unfolding run_next
run_next-total next k r = elim (Option-cases r.pcb.kctxt) [
  | inl new ↦ elim r.context [
    | inl (c, has) ↦ absurd (none-ne-some (sym new ∙ has))
    | inr got ↦ (
      record (set_pcb next (record r.pcb { kctxt = some starter })
          (took (record k { curr = next; stack_map = r.pcb.stack_pfns }))) { ptbr1 = next },
      ground (arith, r.alive, new),
    )
  ]
  | inr (c, has) ↦ (
    record k { curr = next; stack_map = r.pcb.stack_pfns; ptbr1 = next },
    ground (arith, r.alive, has),
  )
]

CanRun-save :
    (here : Resume) (p next : Ptr) (k : Kernel) (s : CanSave k p)
    → CanRun k next
    → CanRun (set_pcb p (record s.pcb { kctxt = some here }) k) next
CanRun-save here p next k s r = elim (Bool-cases (next == p)) [
  | inl same ↦ record {
    pcb = record s.pcb { kctxt = some here };
    alive = rw same;
    context = inl (here, refl);
  }
  | inr other ↦ record { pcb = r.pcb; alive = rw other r.alive; context = r.context }
]

pub switch_between-total :
    (here : Resume) (p next : Ptr) (k : Kernel)
    → CanSave k p
    → CanRun k next
    → (k' : Kernel) × (switch_between here (some p) next k ≡ ok k')
unfolding switch_between
switch_between-total here p next k s r =
    let (k', e) = run_next-total next _ (CanRun-save here p next k s r) in
    (k', ground (arith, s.alive, s.context, e))

-- `kickProcess` with a process ready and memory for a queue node, where the context of the running
-- process can be saved and the oldest ready process can run: it switches, the oldest ready process
-- runs, and the process that was running is the youngest ready one.
pub kick_process-rotates :
    (here : Resume) (k : Kernel) (next : Ptr) (rest : List Ptr)
    → k.ready_q ≡ some (next ∷ rest)
    → fresh k ≢ null
    → CanSave k k.curr
    → CanRun (took k) next
    → (k' : Kernel) × (kick_process here k ≡ ok (switched, k'))
      × (k'.curr ≡ next)
      × (k'.ready_q ≡ some (rest ++ k.curr ∷ []))
unfolding kick_process run_ready
kick_process-rotates here k next rest ready got s r =
    let k₁ : Kernel = record (took k) { ready_q = some (rest ++ k.curr ∷ []) } in
    let s₁ : CanSave k₁ k.curr = record {
      pcb = s.pcb;
      old = s.old;
      alive = s.alive;
      context = s.context;
    } in
    let r₁ : CanRun k₁ next = record { pcb = r.pcb; alive = r.alive; context = r.context } in
    let (k', e) = switch_between-total here k.curr next k₁ s₁ r₁ in
    let sw : Switched next k₁ k' = switch_between-Switched here (some k.curr) next k₁ k' e in
    (k', ground (arith, e), sw.runs, ap (λ z. z.ready_q) sw.same)

-- With no process ready `kickProcess` returns SUCCESS and changes nothing.
pub kick_process-alone :
    (here : Resume) (k : Kernel)
    → k.ready_q ≡ some []
    → kick_process here k ≡ ok (returned (val 0), k)
unfolding kick_process
kick_process-alone here k e = ground arith
