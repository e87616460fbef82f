-- ===== src/Scheduler/Creation.antt =====
-- `initPCB` and `initProcess` of Scheduler.c. `garbage` is what the memory of a new PCB holds where its
-- `stackPfns` will be.
use yallnix.Prelude.{
  ℕ, zero, suc, ◌+◌, Bool, not, Option, none, some, List, [], ◌∷◌, ◌++◌, Run, ok, fault, ◌>>=◌, Ptr,
  null, ◌==◌, if◌then◌else◌, Status, error, success, length, drop,
}
use yallnix.Prelude.Int.{pos}
use yallnix.Hardware.{Hardware}
use yallnix.HashMap.{HashMap}
use yallnix.HashMap
use yallnix.FrameList.{Frames, get_frame_loop}
use yallnix.PageTable.{Pte, initialize_region_page_table}
use yallnix.Kernel.{Kernel, Pcb, fresh, set_pcb, enq_ready}
use yallnix.Scheduler.Exit.{free_stack}

-- The loop that gets the frames of a kernel stack: those that it gets, oldest first.
unfoldable pub take_frames : ℕ → Frames → Status × List ℕ × Frames
take_frames zero fs = (success, [], fs)
take_frames (suc n) fs =
    let (got, array, past) = get_frame_loop fs.array fs.past in
    let fs' : Frames = record { array = array; past = past } in
    let (st, pfns, fs'') = take_frames n fs' in
    elim got [ none ↦ (error, [], fs') | some pfn ↦ (st, pfn ∷ pfns, fs'') ]

-- Whether the `i`-th call of `malloc` from here on succeeds.
abbrev pub answers : Kernel → ℕ → Bool
answers k i = not (k.mallocs i == null)

abbrev pub took_many : ℕ → Kernel → Kernel
took_many n k = record k { mallocs = λ i. k.mallocs (n + i) }

-- The part behind the page table, of a PCB at `p`: ERROR frees the frames in `stackPfns`, written or
-- not, and the PCB.
unfoldable pub init_stack :
    ℕ → List ℕ → Ptr → Option (HashMap Ptr) → List Pte → Kernel → Option Ptr × Kernel
init_stack n garbage p children table k =
    let (st, pfns, fs) = take_frames n k.frames in
    let new_pcb : Pcb = record {
      pid = k.next_pid;
      brk = 0;
      kctxt = none;
      children = children;
      num_children = 0;
      parent = none;
      zombie_q = none;
      r1_table = table;
      ticks = pos 0;
      stack_pfns = pfns;
    } in
    elim st [
      | error ↦ (
        none,
        record k {
          next_pid = k.next_pid + 1;
          frames = free_stack (pfns ++ drop (length pfns) garbage) fs;
        },
      )
      | success ↦ (some p, set_pcb p new_pcb (record k { next_pid = k.next_pid + 1; frames = fs }))
    ]

-- The allocations are those of the PCB, the user context, the map, its array, its ten buckets and the
-- page table. `delete_process` reads fields that are not written yet when it is called for one of the
-- others than the first.
unfoldable pub init_pcb : Hardware → ℕ → List ℕ → Kernel → Run (Option Ptr × Kernel)
unfolding init_stack
init_pcb hw n garbage k =
    if answers k 0
    then (if answers k 1
        then (do
          children ← HashMap.new 10 (answers k 2) (answers k 3) (λ i. answers k (4 + i))
          elim children [
            | none ↦ fault
            | some hm ↦ elim (initialize_region_page_table hw (answers k 14)).1 [
              | none ↦ fault
              | some table ↦ ok (init_stack n garbage (fresh k) (some hm) table (took_many 15 k))
            ]
          ])
        else fault)
    else ok (none, took_many 1 k)

unfoldable pub init_process : Hardware → ℕ → List ℕ → Kernel → Run (Option Ptr × Kernel)
init_process hw n garbage k = do
  (made, k₁) ← init_pcb hw n garbage k
  elim made [
    | none ↦ ok (none, k₁)
    | some p ↦
        let r = enq_ready p k₁ in elim r.0 [ error ↦ ok (none, r.1) | success ↦ ok (some p, r.1) ]
  ]
