-- ===== src/Boot/Start/First.antt =====
-- The first process of KernelStart of Kernel.c, and the states behind `initInitProcess` and
-- `initProcess` of Scheduler.c.
use yallnix.Prelude.{
  ◌+◌, ◌≡◌, ◌≢◌, sym, ap, ◌∙◌, Option, none, some, List, Run, ok, fault, deref, Ptr, null, arith,
  subst, >>=-eq-ok, ok-injective, Bool-cases, inl, inr, deref-eq,
}
use yallnix.Prelude.Int.{pos}
use yallnix.HashMap.{HashMap}
use yallnix.HashMap
use yallnix.PageTable.{Pte}
use yallnix.Kernel.{Kernel, Pcb, unwritten, fresh, set_pcb}
use yallnix.Kernel.Current.{IsCurrent, shared}
use yallnix.Scheduler.Creation.{answers, took_many}
use yallnix.Scheduler.Start.{init_init_process}
use yallnix.Loading.{Process, LoadStatus, loaded, not_loaded, kill, load_program}
use yallnix.Scheduler.Places.{waits}
use yallnix.KernelCalls.Exec.{image_of}
use yallnix.Boot.Halting.{>>=-eq-some, need, need-eq, runs, runs-eq, goes-injective}
use yallnix.Boot.Start.{Given, start_init, set_image_of, args_or_default, loads}

abbrev first_pcb : List Pte → Option (HashMap Ptr) → Kernel → Pcb
first_pcb table children k = record {
  pid = k.next_pid;
  brk = 0;
  kctxt = some unwritten;
  children = children;
  num_children = 0;
  parent = none;
  zombie_q = none;
  r1_table = table;
  ticks = pos 0;
  stack_pfns = k.stack_map;
}

-- The process that `initInitProcess` makes, and the state that it leaves.
pub record Made (table : List Pte) (k : Kernel) (p : Ptr) (k' : Kernel) : Type 0 where
  pub children : Option (HashMap Ptr)
  pub is : p ≡ fresh k
  pub not_null : p ≢ null
  pub state :
      k'
      ≡ set_pcb
          (fresh k)
          (first_pcb table children k)
          (took_many 15 (record k { next_pid = k.next_pid + 1; init_pid = k.next_pid }))

abbrev pub made_of : Option Ptr → Kernel → Run (Option Ptr × Kernel)
made_of p k = ok (p, k)

pub both :
    (a b : Ptr) (k k' : Kernel) → made_of (some a) k ≡ made_of (some b) k' → (a ≡ b) × (k ≡ k')
both a b k k' e =
    let same : some a ≡ some b = ap (λ (z : Option Ptr × Kernel). z.0) (ok-injective _ _ e) in
    (cc, ap (λ (z : Option Ptr × Kernel). z.1) (ok-injective _ _ e))

pub init_init_process-Made :
    (table : List Pte) (k k' : Kernel) (p : Ptr)
    → init_init_process table k ≡ ok (some p, k')
    → Made table k p k'
unfolding init_init_process
init_init_process-Made table k k' p e = elim (Bool-cases (answers k 0)) [
  | inr n0 ↦ cc (rw n0 at e)
  | inl a0 ↦ elim (Bool-cases (answers k 1)) [
    | inr n1 ↦ cc (rw (a0, n1) at e)
    | inl a1 ↦ elim (Bool-cases (answers k 2)) [
      | inr n2 ↦ cc (rw (a0, a1, n2) at e)
      | inl a2 ↦
          let (children, e₁, e₂) =
            >>=-eq-ok
              (HashMap.new {V = Ptr} 10 (answers k 3) (answers k 4) (λ i. answers k (5 + i))) _
              (rw (a0, a1, a2) at e) in
          let (is, state) = both _ _ _ _ e₂ in
          record {
            children = children;
            is = sym is;
            not_null = λ z. absurd (ground (arith, a0, z, is));
            state = sym state;
          }
    ]
  ]
]

-- What the start of the first process leaves, from the state before it.
pub record First (k k' : Kernel) : Type 0 where
  pub current : IsCurrent k'
  pub runs : k'.curr ≡ fresh k
  pub not_null : k'.curr ≢ null
  pub number : current.pcb.pid ≡ k.next_pid
  pub init_number : k'.init_pid ≡ k.next_pid
  pub orphan : current.pcb.parent ≡ none
  pub nothing_saved : current.pcb.kctxt ≡ some unwritten
  pub stack : k'.stack_map ≡ k.stack_map
  pub waiting : (p : Ptr) → waits p (shared k') ≡ waits p (shared k)

loads-eq :
    (r : Run (LoadStatus × Process)) (a : Process) → loads r ≡ ok (some a) → r ≡ ok (loaded, a)
loads-eq fault a e = cc
loads-eq (ok (loaded, x)) a e = ground arith
loads-eq (ok (not_loaded, x)) a e = cc
loads-eq (ok (kill, x)) a e = cc

-- The process that `initInitProcess` has made, with the program in it, runs.
Made-First :
    (table : List Pte) (k k₁ k' : Kernel) (p : Ptr) (pcb : Pcb) (image : Process)
    → Made table k p k₁
    → k₁.pcbs p ≡ some pcb
    → record (set_image_of p pcb image k₁) { curr = p; ptbr1 = p } ≡ k'
    → First k k'
Made-First table k k₁ k' p pcb image m at e =
    let block : some (first_pcb table m.children k) ≡ some pcb =
      sym (ap (λ (f : Ptr → Option Pcb). f p) (ap (λ z. z.pcbs) m.state) ∙ rw m.is (ground arith))
      ∙ at in
    let first : first_pcb table m.children k ≡ pcb = cc in
    record {
      current = record {
        region1 = ap (λ z. z.ptbr1) (sym e) ∙ ap (λ z. z.curr) e;
        pcb = record pcb { brk = image.brk; r1_table = image.memory.table };
        alive =
            subst
              (λ (z : Kernel).
                z.pcbs z.curr
                ≡ some (record pcb { brk = image.brk; r1_table = image.memory.table }))
              e (ground arith);
        stack =
            ap (λ z. z.stack_map) (sym e)
            ∙ ap (λ z. z.stack_map) m.state
            ∙ ap (λ b. b.stack_pfns) first;
        context = unwritten;
        saved = sym (ap (λ (b : Pcb). b.kctxt) first);
      };
      runs = ap (λ z. z.curr) (sym e) ∙ m.is;
      not_null = λ z. m.not_null (ap (λ (y : Kernel). y.curr) e ∙ z);
      number = sym (ap (λ (b : Pcb). b.pid) first);
      init_number = ap (λ z. z.init_pid) (sym e) ∙ ap (λ z. z.init_pid) m.state;
      nothing_saved = sym (ap (λ (b : Pcb). b.kctxt) first);
      orphan = sym (ap (λ (b : Pcb). b.parent) first);
      stack = ap (λ z. z.stack_map) (sym e) ∙ ap (λ z. z.stack_map) m.state;
      waiting = λ x. ap (λ z. waits x (shared z)) (sym e) ∙ ap (λ z. waits x (shared z)) m.state;
    }

pub start_init-First :
    (g : Given) (table : List Pte) (image : Process) (k k' : Kernel)
    → start_init g table k ≡ ok (some (image, k'))
    → First k k'
unfolding start_init
start_init-First g table image k k' e =
    let ((p, k₁), e₁, f₁) = >>=-eq-some (need (init_init_process table k)) _ e in
    let (pcb, e₂, f₂) = >>=-eq-some (runs (deref (k₁.pcbs p))) _ f₁ in
    let (im, e₃, f₃) =
      >>=-eq-some
        (loads
          (load_program g.hw g.constants g.file (args_or_default g.cmd_args) (image_of pcb k₁)))
        _ f₂ in
    Made-First table k k₁ k' p pcb im
      (init_init_process-Made table k k₁ p (need-eq (init_init_process table k) p k₁ e₁))
      (deref-eq (k₁.pcbs p) pcb (runs-eq (deref (k₁.pcbs p)) pcb e₂))
      (ap (λ (z : Process × Kernel). z.1) (goes-injective _ _ f₃))
