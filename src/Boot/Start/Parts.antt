-- ===== src/Boot/Start/Parts.antt =====
-- What the parts of KernelStart of Kernel.c before and behind the two processes leave.
use yallnix.Prelude.{
  ℕ, suc, ◌+◌, ◌/◌, ◌≤◌, ◌≡◌, sym, ap, ◌∙◌, subst, some, none, List, map, ok, Ptr, ◌==◌, arith,
  Bool-cases, inl, inr, take, drop, Option,
}
use yallnix.Set.Count.{to_nat}
use yallnix.PageTable.{Pte, initialize_region_page_table}
use yallnix.FrameList.{init_frame_list}
use yallnix.Hardware.{Hardware, page_size}
use yallnix.Kernel.{Kernel, took}
use yallnix.Scheduler.Creation.{answers, took_many}
use yallnix.Scheduler.Start.{init_scheduler}
use yallnix.Scheduler.Places.{places, count_slots}
use yallnix.Scheduler.Empty.{init_scheduler-places}
use yallnix.SyncObjects.Maps.{init_lock_map, init_cvar_map, init_pipe_map}
use yallnix.Terminal.{init_buffers}
use yallnix.Boot.{boot_table}
use yallnix.Boot.Halting.{Boot, >>=-eq-some, must, must-eq, runs, goes, goes-injective, is_made}
use yallnix.Boot.Start.{
  Given, new_table, stack_entry, buffers_entry, region0_pages, start_memory, start_objects,
  start_contexts,
}
use yallnix.Boot.Start.Quiet.{
  Quiet, Quiet-then, init_lock_map-Quiet, init_cvar_map-Quiet, init_pipe_map-Quiet,
}
use yallnix.Boot.Start.Buffers.{init_buffers-Quiet, init_buffers-drop}
use yallnix.Boot.Start.Queues.{init_scheduler-Quiet}

-- After the scheduler is there, nobody waits.
pub record Prepared (g : Given) (region0 region0' : List Pte) (k k' : Kernel) : Type 0 where
  pub table :
      2 ≤ stack_entry g.hw → drop (stack_entry g.hw) region0' ≡ drop (stack_entry g.hw) region0
  pub quiet : Quiet k k'
  pub placed : (p : Ptr) → places p k' ≡ to_nat (k'.curr == p)

pub start_objects-Prepared :
    (g : Given) (region0 region0' : List Pte) (k k' : Kernel)
    → ((p : Ptr) → count_slots p k.transmitters ≡ 0)
    → start_objects g region0 k ≡ ok (some (region0', k'))
    → Prepared g region0 region0' k k'
unfolding start_objects
start_objects-Prepared g region0 region0' k k' z e =
    let ((table, k₁), e₁, f₁) =
      >>=-eq-some (must (init_buffers (buffers_entry g.hw) g.terminals region0 k)) _ e in
    let (k₂, e₂, f₂) = >>=-eq-some (must (init_lock_map k₁)) _ f₁ in
    let (k₃, e₃, f₃) = >>=-eq-some (must (init_cvar_map k₂)) _ f₂ in
    let (k₄, e₄, f₄) = >>=-eq-some (must (init_pipe_map k₃)) _ f₃ in
    let (k₅, e₅, f₅) = >>=-eq-some (must (init_scheduler g.terminals k₄)) _ f₄ in
    let ran₁ = must-eq (init_buffers (buffers_entry g.hw) g.terminals region0 k) (table, k₁) e₁ in
    let q₁ = init_buffers-Quiet (buffers_entry g.hw) g.terminals region0 table k k₁ ran₁ in
    let q₂ = init_lock_map-Quiet k₁ k₂ (must-eq (init_lock_map k₁) k₂ e₂) in
    let q₃ = init_cvar_map-Quiet k₂ k₃ (must-eq (init_cvar_map k₂) k₃ e₃) in
    let q₄ = init_pipe_map-Quiet k₃ k₄ (must-eq (init_pipe_map k₃) k₄ e₄) in
    let run = must-eq (init_scheduler g.terminals k₄) k₅ e₅ in
    let q₅ = init_scheduler-Quiet g.terminals k₄ k₅ run in
    let before : Quiet k k₄ = Quiet-then q₁ (Quiet-then q₂ (Quiet-then q₃ q₄)) in
    let end : k₅ ≡ k' = ap (λ (x : List Pte × Kernel). x.1) (goes-injective _ _ f₅) in
    let same : table ≡ region0' = ap (λ (x : List Pte × Kernel). x.0) (goes-injective _ _ f₅) in
    subst (Prepared g region0 region0' k) end (record {
      table = λ two.
          ap (drop (stack_entry g.hw)) (sym same)
          ∙ init_buffers-drop (buffers_entry g.hw) g.terminals (stack_entry g.hw) region0 table k k₁
              (omega arith) ran₁;
      quiet = Quiet-then before q₅;
      placed = λ p.
          init_scheduler-places p g.terminals k₄ k₅ (ap (count_slots p) before.transmitters ∙ z p)
            run
          ∙ ap (λ c. to_nat (c == p)) (sym q₅.curr);
    })

table-took :
    (o : Option (List Pte)) (table : List Pte) (k k' : Kernel)
    → elim o as (λ _. Boot (List Pte × Kernel)) [ none ↦ ok none | some t ↦ goes (t, took k) ]
      ≡ ok (some (table, k'))
    → took k ≡ k'
table-took none table k k' e = cc
table-took (some t) table k k' e = ap (λ (x : List Pte × Kernel). x.1) (goes-injective _ _ e)

new_table-took :
    (hw : Hardware) (table : List Pte) (k k' : Kernel)
    → new_table hw k ≡ ok (some (table, k'))
    → took k ≡ k'
unfolding new_table
new_table-took hw table k k' e =
    table-took (initialize_region_page_table hw (answers k 0)).1 table k k' e

-- The frames of the kernel stack, as region 0 maps it.
abbrev pub stack_frames : Given → List Pte → List ℕ
stack_frames g region0 =
    map (λ (e : Pte). e.pfn) (take g.stack_pages (drop (stack_entry g.hw) region0))

pub record Mapped (g : Given) (k : Kernel) (region0 : List Pte) (k' : Kernel) : Type 0 where
  pub transmitters : k'.transmitters ≡ k.transmitters
  pub mallocs : (i : ℕ) → k'.mallocs i ≡ k.mallocs (3 + i)
  pub stack_map : k'.stack_map ≡ stack_frames g region0

pub start_memory-Mapped :
    (g : Given) (region0 table1 : List Pte) (k k' : Kernel)
    → start_memory g k ≡ ok (some (region0, table1, k'))
    → Mapped g k region0 k'
unfolding start_memory
start_memory-Mapped g region0 table1 k k' e =
    let ((table0, k₁), e₁, f₁) = >>=-eq-some (new_table g.hw k) _ e in
    let ((t1, k₂), e₂, f₂) = >>=-eq-some (new_table g.hw k₁) _ f₁ in
    let (frames, e₃, f₃) =
      >>=-eq-some
        (is_made
          (init_frame_list g.hw (answers k₂ 0) (g.pmem_size / page_size g.hw) g.frames_brk).1)
        _ f₂ in
    let (r0, e₄, f₄) =
      >>=-eq-some
        (runs (
          boot_table g.hw g.kernel_data.data_start g.table_brk (region0_pages g.hw) g.hw.vmem_0_base
            table0))
        _ f₃ in
    let first = new_table-took g.hw table0 k k₁ e₁ in
    let second = new_table-took g.hw t1 k₁ k₂ e₂ in
    let here = goes-injective _ _ f₄ in
    let region : r0 ≡ region0 = ap (λ (x : List Pte × List Pte × Kernel). x.0) here in
    let end : record (took k₂) {
      frames = record k.frames { array = frames };
      stack_map = stack_frames g r0;
    }
        ≡ k' =
      ap (λ (x : List Pte × List Pte × Kernel). x.2) here in
    record {
      transmitters =
          ap (λ z. z.transmitters) (sym end)
          ∙ ap (λ z. z.transmitters) (sym second)
          ∙ ap (λ z. z.transmitters) (sym first);
      mallocs = λ i.
          ap (λ z. z.mallocs i) (sym end)
          ∙ ap (λ z. z.mallocs (suc i)) (sym second)
          ∙ ap (λ z. z.mallocs (suc (suc i))) (sym first)
          ∙ ap k.mallocs (omega arith);
      stack_map = ap (λ z. z.stack_map) (sym end) ∙ ap (stack_frames g) region;
    }

pub start_contexts-took : (k k' : Kernel) → start_contexts k ≡ ok (some k') → took_many 2 k ≡ k'
unfolding start_contexts
start_contexts-took k k' e = elim (Bool-cases (answers k 0)) [
  | inr n0 ↦ cc (rw n0 at e)
  | inl a0 ↦ elim (Bool-cases (answers k 1)) [
    | inr n1 ↦ cc (rw (a0, n1) at e)
    | inl a1 ↦ goes-injective _ _ (rw (a0, a1) at e)
  ]
]
