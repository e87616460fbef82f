-- ===== src/Boot/Start/Order.antt =====
-- What KernelStart of Kernel.c leaves when it does not halt.
use yallnix.Prelude.{
  ℕ, ◌+◌, ◌≤◌, ◌≡◌, ◌≢◌, sym, ap, ◌∙◌, subst, some, none, List, map, ok, Ptr, null, ◌==◌, arith,
  Bool-cases, inl, inr, take,
}
use yallnix.Set.Count.{to_nat}
use yallnix.PageTable.{Pte}
use yallnix.Kernel.{Kernel, Pcb, unwritten}
use yallnix.Kernel.Current.{shared}
use yallnix.Scheduler.Creation.{took_many}
use yallnix.Scheduler.Places.{waits, places, count_slots}
use yallnix.Scheduler.Runs.{Reach, Reach-Apart}
use yallnix.Boot.Halting.{>>=-eq-some, runs, goes-injective}
use yallnix.Boot.Start.Vector.{interrupt_vector}
use yallnix.Boot.Start.{
  Given, Machine, stack_entry, start_memory, start_objects, start_idle, start_init, start_contexts,
  kernel_start,
}
use yallnix.Boot.Start.First.{First, start_init-First}
use yallnix.Boot.Start.Idle.{Admitted, start_idle-Admitted}
use yallnix.Boot.Start.Parts.{
  Prepared, Mapped, stack_frames, start_objects-Prepared, start_memory-Mapped, start_contexts-took,
}

-- The addresses that `malloc` returns are different.
abbrev pub AllDistinct : Kernel → Type 0
AllDistinct k = (i j : ℕ) → k.mallocs i ≢ null → k.mallocs i ≡ k.mallocs j → i ≡ j

-- A started machine: the first process runs, and "idle", another one, is all that waits.
pub record Started (g : Given) (m : Machine) : Type 0 where
  pub pcb : Pcb
  pub alive : m.kernel.pcbs m.kernel.curr ≡ some pcb
  pub number : pcb.pid ≡ m.kernel.init_pid
  pub orphan : pcb.parent ≡ none
  pub nothing_saved : pcb.kctxt ≡ some unwritten
  pub own_stack : m.kernel.stack_map ≡ pcb.stack_pfns
  pub stack : m.kernel.stack_map ≡ stack_frames g m.region0
  pub idle : Ptr
  pub apart : idle ≢ m.kernel.curr
  pub placed : (p : Ptr) → places p m.kernel ≡ to_nat (m.kernel.curr == p) + to_nat (idle == p)

module _ (g : Given) (k : Kernel) (m : Machine) (z : (p : Ptr) → count_slots p k.transmitters ≡ 0)
    (d : AllDistinct k) (two : 2 ≤ stack_entry g.hw) where
  assembled :
      (region0 : List Pte) (k₁ k₂ k₃ k₄ : Kernel) (idle : Ptr)
      → Mapped g k region0 k₁
      → Prepared g region0 m.region0 k₁ k₂
      → Admitted k₂ idle k₃
      → First k₃ k₄
      → took_many 2 k₄ ≡ m.kernel
      → Started g m
  unfolding places
  assembled region0 k₁ k₂ k₃ k₄ idle mapped prepared admitted first end = record {
    pcb = first.current.pcb;
    alive = subst (λ (x : Kernel). x.pcbs x.curr ≡ some first.current.pcb) end first.current.alive;
    nothing_saved = first.nothing_saved;
    own_stack = ap (λ z. z.stack_map) (sym end) ∙ first.current.stack;
    number = first.number ∙ sym first.init_number ∙ ap (λ (x : Kernel). x.init_pid) end;
    orphan = first.orphan;
    stack =
        ap (λ z. z.stack_map) (sym end)
        ∙ first.stack
        ∙ admitted.stack_map
        ∙ prepared.quiet.stack_map
        ∙ mapped.stack_map
        ∙ ap (λ t. map (λ (e : Pte). e.pfn) (take g.stack_pages t)) (sym (prepared.table two));
    idle = idle;
    apart = λ same. two_processes same;
    placed = λ p. omega (
      arith,
      ap (λ (x : Kernel). to_nat (x.curr == p)) end,
      ap (λ (x : Kernel). waits p (shared x)) end,
      first.waiting p,
      admitted.placed p,
      prepared.placed p,
      ap (λ c. to_nat (c == p)) admitted.curr,
    );
  }
    where
      n : ℕ
      n = prepared.quiet.taken

      idle_at : idle ≡ k.mallocs (3 + (n + 0))
      idle_at = admitted.is ∙ prepared.quiet.mallocs 0 ∙ mapped.mallocs (n + 0)

      first_at : m.kernel.curr ≡ k.mallocs (3 + (n + (16 + 0)))
      first_at =
          ap (λ (x : Kernel). x.curr) (sym end)
          ∙ first.runs
          ∙ admitted.mallocs 0
          ∙ prepared.quiet.mallocs (16 + 0)
          ∙ mapped.mallocs (n + (16 + 0))

      two_processes : idle ≢ m.kernel.curr
      two_processes same =
          let i =
            d (3 + (n + 0)) (3 + (n + (16 + 0))) (λ e. admitted.not_null (idle_at ∙ e))
              (sym idle_at ∙ same ∙ first_at) in
          omega (arith, i)

  -- A KernelStart that does not halt, where the static array of the processes that transmit is
  -- empty, `malloc` never returns an address twice and the kernel stack has two pages of region 0
  -- below it, leaves a process running that has no parent and the number of the first process,
  -- whose context is allocated and not yet written, and whose kernel stack is the one in use, in
  -- the frames that region 0 maps for it; one other process waits in one place, and no more.
  pub kernel_start-Started : kernel_start g k ≡ ok (some m) → Started g m
  unfolding kernel_start
  kernel_start-Started e =
      let (vector, e₀, f₀) = >>=-eq-some (runs (interrupt_vector g.numbers)) _ e in
      let ((region0, table1, k₁), e₁, f₁) = >>=-eq-some (start_memory g k) _ f₀ in
      let ((region0', k₂), e₂, f₂) = >>=-eq-some (start_objects g region0 k₁) _ f₁ in
      let ((idle, k₃), e₃, f₃) = >>=-eq-some (start_idle g k₂) _ f₂ in
      let ((image, k₄), e₄, f₄) = >>=-eq-some (start_init g table1 k₃) _ f₃ in
      let (k₅, e₅, f₅) = >>=-eq-some (start_contexts k₄) _ f₄ in
      let machine = goes-injective _ _ f₅ in
      let mapped = start_memory-Mapped g region0 table1 k k₁ e₁ in
      let prepared =
        start_objects-Prepared g region0 region0' k₁ k₂
          (λ p. ap (count_slots p) mapped.transmitters ∙ z p) e₂ in
      assembled region0 k₁ k₂ k₃ k₄ idle mapped
        (subst (λ t. Prepared g region0 t k₁ k₂) (ap (λ (x : Machine). x.region0) machine) prepared)
        (start_idle-Admitted g k₂ k₃ idle e₃) (start_init-First g table1 image k₃ k₄ e₄)
        (start_contexts-took k₄ k₅ e₅ ∙ ap (λ (x : Machine). x.kernel) machine)

  -- After a KernelStart that does not halt, where the static array of the processes that transmit
  -- is empty, `malloc` never returns an address twice and the kernel stack has two pages of region
  -- 0 below it: no process is ever in two places, running, ready, blocked, asleep or at a
  -- terminal, over every run, in any order, of the calls that move processes: kickProcess,
  -- sleepProcess, blockProcess, blockReader, blockTransmitter, waitTransmitter and exitProcess
  -- that switch, unblockProcess with any result, unblockReader and unblockTransmitter that
  -- succeed, signalTransmitter with the unblockTransmitter or waitTransmitter that succeeds or
  -- switches right after it, forkProcess and the entry of a new process that is nowhere yet,
  -- tickDownSleepers that succeeds from a valid map of sleepers, each under its own number, with a
  -- ready queue and memory for every node; and of other code that moves none.
  pub kernel_start-Apart :
      (k' : Kernel)
      → kernel_start g k ≡ ok (some m)
      → Reach m.kernel k'
      → (p : Ptr) → places p k' ≤ 1
  kernel_start-Apart k' e r p =
      let s = kernel_start-Started e in Reach-Apart m.kernel k' r (λ q. one_place s q) p
    where
      one_place : (s : Started g m) (q : Ptr) → places q m.kernel ≤ 1
      one_place s q = elim (Bool-cases (s.idle == q)) [
        | inl same ↦ elim (Bool-cases (m.kernel.curr == q)) [
          | inl also ↦ absurd (s.apart (ground arith))
          | inr other ↦ omega (arith, s.placed q, ap to_nat same, ap to_nat other)
        ]
        | inr miss ↦ elim (Bool-cases (m.kernel.curr == q)) [
          | inl also ↦ omega (arith, s.placed q, ap to_nat miss, ap to_nat also)
          | inr other ↦ omega (arith, s.placed q, ap to_nat miss, ap to_nat other)
        ]
      ]
