-- ===== src/Boot/Start/Born.antt =====
-- The process that `initPCB` of Scheduler.c makes, and the state behind it.
use yallnix.Prelude.{
  ℕ, ◌+◌, ◌≡◌, ◌≢◌, sym, ap, ◌∙◌, Option, none, some, List, Run, ok, fault, Ptr, null, arith,
  >>=-eq-ok, Bool-cases, inl, inr, Status, error, success, length, drop, ◌++◌,
}
use yallnix.Hardware.{Hardware}
use yallnix.HashMap.{HashMap}
use yallnix.HashMap
use yallnix.PageTable.{Pte, initialize_region_page_table}
use yallnix.FrameList.{Frames}
use yallnix.Scheduler.Exit.{free_stack}
use yallnix.Prelude.Int.{pos}
use yallnix.Kernel.{Kernel, Pcb, fresh, set_pcb}
use yallnix.Kernel.Current.{shared}
use yallnix.Scheduler.Creation.{answers, took_many, take_frames, init_stack, init_pcb}
use yallnix.Scheduler.Places.{waits}
use yallnix.Boot.Start.First.{both}

-- A process that `initPCB` has made waits nowhere; `n` answers of `malloc` are taken.
pub record Born (n : ℕ) (k : Kernel) (p : Ptr) (k' : Kernel) : Type 0 where
  pub is : p ≡ fresh k
  pub not_null : p ≢ null
  pub curr : k'.curr ≡ k.curr
  pub stack_map : k'.stack_map ≡ k.stack_map
  pub waiting : (x : Ptr) → waits x (shared k') ≡ waits x (shared k)
  pub mallocs : (i : ℕ) → k'.mallocs i ≡ k.mallocs (n + i)

module _ (hw : Hardware) (n : ℕ) (garbage : List ℕ) (k k' : Kernel) (p : Ptr)
    (a0 : fresh k ≢ null) where
  abbrev born_pcb : Option (HashMap Ptr) → List Pte → List ℕ → Pcb
  born_pcb children table pfns = record {
    pid = k.next_pid;
    brk = 0;
    kctxt = none;
    children = children;
    num_children = 0;
    parent = none;
    zombie_q = none;
    r1_table = table;
    ticks = pos 0;
    stack_pfns = pfns;
  }

  frames-Born :
      (children : Option (HashMap Ptr)) (table : List Pte) (st : Status) (pfns : List ℕ)
      (fs : Frames)
      → ok (elim st as (λ _. Option Ptr × Kernel) [
        | error ↦ (
          none,
          record (took_many 15 k) {
            next_pid = k.next_pid + 1;
            frames = free_stack (pfns ++ drop (length pfns) garbage) fs;
          },
        )
        | success ↦ (
          some (fresh k),
          set_pcb
              (fresh k)
              (born_pcb children table pfns)
              (record (took_many 15 k) { next_pid = k.next_pid + 1; frames = fs }),
        )
      ])
        ≡ ok (some p, k')
      → Born 15 k p k'
  frames-Born children table error pfns fs e = cc
  frames-Born children table success pfns fs e =
      let (is, state) = both (fresh k) p _ k' e in
      record {
        is = sym is;
        not_null = λ z. a0 (is ∙ z);
        curr = ap (λ z. z.curr) (sym state);
        stack_map = ap (λ z. z.stack_map) (sym state);
        waiting = λ x. ap (λ z. waits x (shared z)) (sym state);
        mallocs = λ i. ap (λ z. z.mallocs i) (sym state);
      }

  stack-Born :
      (children : Option (HashMap Ptr)) (table : List Pte)
      → ok (init_stack n garbage (fresh k) children table (took_many 15 k)) ≡ ok (some p, k')
      → Born 15 k p k'
  unfolding init_stack
  stack-Born children table e =
      let r = take_frames n k.frames in frames-Born children table r.0 r.1 r.2 e

  table-Born :
      (children : Option (HashMap Ptr)) (o : Option (List Pte))
      → elim o as (λ _. Run (Option Ptr × Kernel)) [
        | none ↦ fault
        | some table ↦ ok (init_stack n garbage (fresh k) children table (took_many 15 k))
      ]
        ≡ ok (some p, k')
      → Born 15 k p k'
  table-Born children none e = cc
  table-Born children (some table) e = stack-Born children table e

  children-Born :
      (children : Option (HashMap Ptr))
      → elim children as (λ _. Run (Option Ptr × Kernel)) [
        | none ↦ fault
        | some hm ↦
            elim (initialize_region_page_table hw (answers k 14)).1
              as (λ _. Run (Option Ptr × Kernel)) [
                | none ↦ fault
                | some table ↦ ok (init_stack n garbage (fresh k) (some hm) table (took_many 15 k))
              ]
      ]
        ≡ ok (some p, k')
      → Born 15 k p k'
  children-Born none e = cc
  children-Born (some hm) e =
      table-Born (some hm) (initialize_region_page_table hw (answers k 14)).1 e

pub init_pcb-Born :
    (hw : Hardware) (n : ℕ) (garbage : List ℕ) (k k' : Kernel) (p : Ptr)
    → init_pcb hw n garbage k ≡ ok (some p, k')
    → Born 15 k p k'
unfolding init_pcb
init_pcb-Born hw n garbage k k' p e = elim (Bool-cases (answers k 0)) [
  | inr n0 ↦ cc (rw n0 at e)
  | inl a0 ↦ elim (Bool-cases (answers k 1)) [
    | inr n1 ↦ cc (rw (a0, n1) at e)
    | inl a1 ↦
        let (children, e₁, e₂) =
          >>=-eq-ok (HashMap.new {V = Ptr} 10 (answers k 2) (answers k 3) (λ i. answers k (4 + i)))
            _ (rw (a0, a1) at e) in
        children-Born hw n garbage k k' p (λ z. absurd (ground (arith, a0, z))) children e₂
  ]
]
