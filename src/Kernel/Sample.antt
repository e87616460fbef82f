-- ===== src/Kernel/Sample.antt =====
-- A concrete state of the kernel. Processes 1, 2 and 3 have their process control blocks at 10, 20 and
-- 30. Process 1 runs and holds lock 0, process 2 is ready, and process 3 is blocked on the lock.
use yallnix.Prelude.{
  true, ℕ, ◌+◌, refl, false, Option, none, some, [], ◌∷◌, Ptr, ◌==◌, if◌then◌else◌, arith,
}
use yallnix.Prelude.Int.{pos}
use yallnix.Set.{find_loop}
use yallnix.HashMap.{HashMap}
use yallnix.HashMap.Buckets.{IsValid}
use yallnix.Kernel.{Kernel, Pcb, Lock, Pipe, Resume, trap, acquire, wait}

abbrev pub pcb : ℕ → Resume → Pcb
pcb pid context = record {
  pid = pid;
  brk = 160;
  kctxt = some context;
  children = none;
  num_children = 0;
  parent = none;
  zombie_q = some [];
  r1_table = [];
  ticks = pos 0;
  stack_pfns = pid ∷ [];
}

abbrev pub processes : Ptr → Option Pcb
processes p =
    if p == 10
    then some (pcb 1 trap)
    else if p == 20
    then some (pcb 2 trap)
    else if p == 30
    then some (pcb 3 (acquire 40))
    else none

-- A map with one bucket and one object.
abbrev pub one : ℕ → Ptr → HashMap Ptr
one id p = record { size = 1; sets = some ((pos id, p) ∷ []) ∷ [] }

abbrev pub empty : HashMap Ptr
empty = record { size = 1; sets = some [] ∷ [] }

pub one-IsValid : (id : ℕ) (p : Ptr) → IsValid (one id p)
unfolding find_loop
one-IsValid id p = record { sized = refl; nonempty = omega arith; hold = ((refl, tt), tt) }

abbrev pub held : Lock
held = record { owner = some 10; waiting_q = some (30 ∷ []) }

abbrev pub pipe : Pipe
pipe = record { buffer = 7 ∷ 8 ∷ 9 ∷ []; waiting_q = some [] }

abbrev pub sample : Kernel
sample = record {
  curr = 10;
  pcbs = processes;
  ready_q = some (20 ∷ []);
  blocked = some (one 3 30);
  sleeping = some empty;
  transmitters = none ∷ [];
  transmitting_qs = some [] ∷ [];
  reading_qs = some [] ∷ [];
  buffers = some (record { line = 5 ∷ 6 ∷ []; is_line_ready = true }) ∷ [];
  line_max = 2;
  transmitted = [];
  stored = [];
  next_pid = 4;
  init_pid = 1;
  next_sync_id = 3;
  frames = record { array = []; past = record { pfn = 0; is_free = false } };
  lock_map = some (one 0 40);
  locks = λ p. if p == 40 then some held else none;
  cvar_map = some (one 1 50);
  cvars = λ p. if p == 50 then some [] else none;
  pipe_map = some (one 2 60);
  pipes = λ p. if p == 60 then some pipe else none;
  stack_map = 1 ∷ [];
  ptbr1 = 10;
  copied = [];
  mallocs = λ n. 100 + n;
}

-- Process 1 is a child of process 3, which waits for it in KernelWait and has a child map.
abbrev pub waiting_parent : Pcb
waiting_parent = record (pcb 3 (wait 140)) {
  children = some (one 1 10);
  num_children = 1;
  zombie_q = none;
}

abbrev pub family : Kernel
family = record sample {
  pcbs = λ p.
      if p == 10
      then some (record (pcb 1 trap) { parent = some 30 })
      else if p == 30
      then some waiting_parent
      else processes p;
}
