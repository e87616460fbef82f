-- ===== src/KernelCalls/Exec.antt =====
-- KernelExec of KernelCalls/GeneralKernelCalls.c, with execProcess and execTo of Scheduler.c. `mem` is the
-- caller's memory, `argv` the words that can be read from `argvec` on, `strlen` that of the
-- C library, and `switches` whether KernelContextSwitch, of the hardware library, succeeds.
mod Tests
use yallnix.Prelude.{
  ℕ, Bool, Option, none, some, List, [], ◌∷◌, map, Run, ok, fault, ◌>>=◌, deref, null, ◌==◌,
  if◌then◌else◌,
}
use yallnix.Prelude.Int.{ℤ}
use yallnix.Hardware.{Hardware}
use yallnix.Kernel.{Kernel, Pcb, starter, err, Step, returned, to_user, yields, set_pcb}
use yallnix.KernelCalls.General.{kernel_exit}
use yallnix.UserMemory.{Tables, is_valid_string}
use yallnix.Loading.{Constants, File, Process, LoadStatus, loaded, not_loaded, kill, load_program}

-- The loop over the arguments: their addresses, or `none` if one is not a valid string.
unfoldable pub check_args : Hardware → Tables → (ℕ → Option ℕ) → List ℕ → Run (Option (List ℕ))
check_args hw t mem [] = fault
check_args hw t mem (word ∷ argv) =
    let rest = check_args hw t mem argv in
    if word == null then ok (some []) else do
      valid ← is_valid_string hw t mem word
      if valid
          then (do
            args ← rest
            elim args [ none ↦ ok none | some as_found ↦ ok (some (word ∷ as_found)) ])
          else ok none

unfoldable pub exec_to : Kernel → Run Kernel
exec_to k = do
  pcb ← deref (k.pcbs k.curr)
  old ← deref pcb.kctxt
  ok (set_pcb k.curr (record pcb { kctxt = some starter }) k)

-- The switch to the starter context of the same process; one that fails returns ERROR.
unfoldable pub exec_process : Bool → Kernel → Step
exec_process switches k =
    if switches then (do k' ← exec_to k; yields to_user k') else yields (returned err) k

-- The process as LoadProgram sees it.
abbrev pub image_of : Pcb → Kernel → Process
image_of pcb k = record {
  brk = pcb.brk;
  sp = 0;
  pc = 0;
  memory = record { table = pcb.r1_table; frames = k.frames };
}

abbrev pub set_image : Pcb → Process → Kernel → Kernel
set_image pcb p k =
    set_pcb k.curr (record pcb { brk = p.brk; r1_table = p.memory.table })
      (record k { frames = p.memory.frames })

-- What follows LoadProgram.
unfoldable pub after_load : Bool → ℤ → LoadStatus → Kernel → Step
after_load switches code loaded k = exec_process switches k
after_load switches code not_loaded k = yields (returned err) k
after_load switches code kill k = kernel_exit code k

-- The part behind the tests of the strings.
unfoldable pub exec_found :
    Hardware → Constants → File → (ℕ → ℕ) → Bool → ℤ → Option (List ℕ) → Kernel → Step
exec_found hw c file strlen switches code none k = yields (returned err) k
exec_found hw c file strlen switches code (some args) k = do
  pcb ← deref (k.pcbs k.curr)
  (st, p) ← load_program hw c file (map strlen args) (image_of pcb k)
  after_load switches code st (set_image pcb p k)

unfoldable pub kernel_exec :
    Hardware
    → Constants
    → File
    → Tables
    → (ℕ → Option ℕ)
    → (ℕ → ℕ)
    → Bool
    → ℤ
    → ℕ
    → List ℕ
    → Kernel
    → Step
kernel_exec hw c file t mem strlen switches code filename argv k = do
  valid ← is_valid_string hw t mem filename
  if valid
      then (do args ← check_args hw t mem argv; exec_found hw c file strlen switches code args k)
      else yields (returned err) k
