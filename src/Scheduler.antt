-- ===== src/Scheduler.antt =====
-- The scheduling functions of KernelDataStructures/Scheduler/Scheduler.c. A function that may switch
-- contexts takes the point `here` at which its caller goes on. NULL tests on a pointer are the `none`
-- cases of its Option.
pub mod Tty
pub mod Exit
pub mod Creation
pub mod Stacks
pub mod Runs
pub mod Start
pub mod Empty
pub mod Clock
pub mod Blocking
pub mod Switching
pub mod Terminal
pub mod Places
pub mod Unblocking
pub mod Forking
pub mod Outcomes
pub mod Rotation
mod Tests
use yallnix.Prelude.{
  ℕ, zero, suc, Bool, true, false, Option, none, some, List, [], ◌∷◌, Run, ok, fault, ◌>>=◌, deref,
  Ptr, null, not, ◌==◌, if◌then◌else◌, Status, error, success,
}
use yallnix.Prelude.Int.{ℤ, pos, is_nonpos}
use yallnix.HashMap.{HashMap}
use yallnix.HashMap
use yallnix.Fifo
use yallnix.Kernel.{
  Kernel, Pcb, Resume, fork, trap, finish, Rc, err, val, Step, Outcome, returned, switched, yields,
  fresh, took, set_pcb, enq_ready, deq_ready,
}
use yallnix.Kernel.Switch.{switch_between, context_switch, fork_to}

-- The end that most of the functions share: run the oldest ready process instead of `p`.
unfoldable pub run_ready : Resume → Option Ptr → Kernel → Step
run_ready here p k =
    let r : Option Ptr × Kernel = deq_ready k in
    elim r.0 [ none ↦ yields (returned err) r.1 | some next ↦ context_switch here p next r.1 ]

unfoldable pub sleep_process : Resume → ℤ → Kernel → Step
sleep_process here ticks k = if is_nonpos ticks then yields (returned (val 0)) k else do
  pcb ← deref (k.pcbs k.curr)
  let k₁ : Kernel = set_pcb k.curr (record pcb { ticks = ticks }) k
  (st, m) ← HashMap.insert (not (fresh k₁ == null)) (pos pcb.pid) (some k.curr) k₁.sleeping
  let k₂ : Kernel = record (took k₁) { sleeping = m }
  elim st [ error ↦ yields (returned err) k₂ | success ↦ run_ready here (some k.curr) k₂ ]

unfoldable pub kick_process : Resume → Kernel → Step
kick_process here k = elim k.ready_q [
  | none ↦ yields (returned err) k
  | some q ↦ elim (Fifo.peek (some q)) [
    | none ↦ yields (returned (val 0)) k
    | some p ↦
        let r : Status × Kernel = enq_ready k.curr k in
        elim r.0 [ error ↦ yields (returned err) r.1 | success ↦ run_ready here (some k.curr) r.1 ]
  ]
]

-- `childPCB->parent->pid != currPCB->pid` and the tests in front of it.
unfoldable pub is_child : Ptr → Kernel → Run Bool
is_child child k = do
  pcb ← deref (k.pcbs child)
  elim pcb.parent [
    | none ↦ ok false
    | some parent ↦ do p ← deref (k.pcbs parent); c ← deref (k.pcbs k.curr); ok (p.pid == c.pid)
  ]

unfoldable pub fork_process : Resume → Option Ptr → Kernel → Step
unfolding is_child
fork_process here none k = yields (returned err) k
fork_process here (some child) k = do
  test ← is_child child k
  let r : Status × Kernel = enq_ready k.curr k
  elim test [
    | false ↦ yields (returned err) k
    | true ↦ elim r.0 [
      | error ↦ yields (returned err) r.1
      | success ↦ do k' ← fork_to here child r.1; yields switched k'
    ]
  ]

unfoldable pub block_process : Resume → Kernel → Step
block_process here k = do
  pcb ← deref (k.pcbs k.curr)
  (st, m) ← HashMap.insert (not (fresh k == null)) (pos pcb.pid) (some k.curr) k.blocked
  let k₁ : Kernel = record (took k) { blocked = m }
  elim st [ error ↦ yields (returned err) k₁ | success ↦ run_ready here (some k.curr) k₁ ]

-- `enq_q(readyQ, found)`, if a process was found.
abbrev pub ready_found : Option Ptr → Kernel → Status × Kernel
ready_found none k = (success, k)
ready_found (some p) k = enq_ready p k

-- Returns ERROR or 0; it never switches.
unfoldable pub unblock_process : ℕ → Kernel → Run (Status × Kernel)
unblock_process pid k = elim k.blocked [
  | none ↦ ok (error, k)
  | some hm ↦ do
    (found, m) ← HashMap.remove (pos pid) (some hm)
    let k₁ : Kernel = record k { blocked = m }
    ok (ready_found found k₁)
]
