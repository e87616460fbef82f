-- ===== src/Kernel/Current.antt =====
-- What a context switch leaves: the process that runs, its kernel stack and its region 1.
use yallnix.Prelude.{
  ◌≡◌, refl, sym, ap, ◌∙◌, deref-eq, ok-injective, Option, none, some, List, ok, deref, Ptr, ℕ,
  arith, >>=-eq-ok, inl, inr, Option-cases,
}
use yallnix.HashMap.{HashMap}
use yallnix.FrameList.{Frames}
use yallnix.Kernel.{TtyBuf, Kernel, Pcb, Resume, starter, set_pcb, Lock, Pipe}
use yallnix.Kernel.Switch.{switch_between, run_next, save_context, run_child, fork_to}

-- The queues, maps and objects that a switch must not touch.
pub record Shared : Type 0 where
  pub ready_q : Option (List Ptr)
  pub blocked : Option (HashMap Ptr)
  pub sleeping : Option (HashMap Ptr)
  pub transmitters : List (Option Ptr)
  pub transmitting_qs : List (Option (List Ptr))
  pub reading_qs : List (Option (List Ptr))
  pub buffers : List (Option TtyBuf)
  pub line_max : ℕ
  pub transmitted : List (ℕ × List ℕ)
  pub frames : Frames
  pub lock_map : Option (HashMap Ptr)
  pub locks : Ptr → Option Lock
  pub cvar_map : Option (HashMap Ptr)
  pub cvars : Ptr → Option (List Ptr)
  pub pipe_map : Option (HashMap Ptr)
  pub pipes : Ptr → Option Pipe

abbrev pub shared : Kernel → Shared
shared k = record {
  ready_q = k.ready_q;
  blocked = k.blocked;
  sleeping = k.sleeping;
  transmitters = k.transmitters;
  transmitting_qs = k.transmitting_qs;
  reading_qs = k.reading_qs;
  buffers = k.buffers;
  line_max = k.line_max;
  transmitted = k.transmitted;
  frames = k.frames;
  lock_map = k.lock_map;
  locks = k.locks;
  cvar_map = k.cvar_map;
  cvars = k.cvars;
  pipe_map = k.pipe_map;
  pipes = k.pipes;
}

-- The kernel stack and the region 1 in the MMU are those of the process that runs.
pub record IsCurrent (k : Kernel) : Type 0 where
  pub region1 : k.ptbr1 ≡ k.curr
  pub pcb : Pcb
  pub alive : k.pcbs k.curr ≡ some pcb
  pub stack : k.stack_map ≡ pcb.stack_pfns
  pub context : Resume
  pub saved : pcb.kctxt ≡ some context

pub record Switched (next : Ptr) (k k' : Kernel) : Type 0 where
  pub runs : k'.curr ≡ next
  pub same : shared k' ≡ shared k
  pub current : IsCurrent k'

run_next-Switched : (next : Ptr) (k k' : Kernel) → run_next next k ≡ ok k' → Switched next k k'
unfolding run_next
run_next-Switched next k k' e =
    let (pcb, e₁, e₂) = >>=-eq-ok (deref (k.pcbs next)) _ e in
    elim (Option-cases pcb.kctxt) [
      | inl new ↦ record {
        runs = ground arith;
        same = ground arith;
        current = record {
          region1 = ground arith;
          pcb = record pcb { kctxt = some starter };
          alive = ground (arith, e₁);
          stack = ground arith;
          context = starter;
          saved = refl;
        };
      }
      | inr (c, old) ↦ record {
        runs = ground arith;
        same = ground arith;
        current = record {
          region1 = ground arith;
          pcb = pcb;
          alive = ground (arith, e₁);
          stack = ground arith;
          context = c;
          saved = old;
        };
      }
    ]

-- What `save_context` writes.
pub save_context-eq :
    (here : Resume) (p : Ptr) (k k' : Kernel)
    → save_context here p k ≡ ok k'
    → (pcb : Pcb) × (k.pcbs p ≡ some pcb) × (k' ≡ set_pcb p (record pcb { kctxt = some here }) k)
save_context-eq here p k k' e =
    let (pcb, e₁, e₂) = >>=-eq-ok (deref (k.pcbs p)) _ e in
    let (old, e₃, e₄) = >>=-eq-ok (deref pcb.kctxt) _ e₂ in
    (pcb, deref-eq (k.pcbs p) pcb e₁, sym (ok-injective _ _ e₄))

-- When `switchBetween` ends, the next process runs, with its own kernel stack and region 1 in the
-- MMU and a kernel context, and no queue, map, frame or object has changed.
pub switch_between-Switched :
    (here : Resume) (p : Option Ptr) (next : Ptr) (k k' : Kernel)
    → switch_between here p next k ≡ ok k'
    → Switched next k k'
unfolding switch_between
switch_between-Switched here none next k k' e = run_next-Switched next k k' e
switch_between-Switched here (some p) next k k' e =
    let (k₁, e₁, e₂) = >>=-eq-ok (save_context here p k) _ e in
    let (pcb, at, eq) = save_context-eq here p k k₁ e₁ in
    let s : Switched next k₁ k' = run_next-Switched next k₁ k' e₂ in
    record { runs = s.runs; same = s.same ∙ ap shared eq; current = s.current }

run_child-Switched :
    (here : Resume) (child : Ptr) (k k' : Kernel)
    → run_child here child k ≡ ok k'
    → Switched child k k'
unfolding run_child
run_child-Switched here child k k' e =
    let (pcb, e₁, e₂) = >>=-eq-ok (deref (k.pcbs child)) _ e in
    let k₀ : Kernel = record k { curr = child; stack_map = pcb.stack_pfns } in
    let (k₁, e₃, e₄) = >>=-eq-ok (save_context here child k₀) _ e₂ in
    let (pcb', at, eq) = save_context-eq here child k₀ k₁ e₃ in
    let same_pcb : pcb ≡ pcb' = ground (arith, deref-eq (k.pcbs child) pcb e₁, at) in
    record {
      runs = ground (arith, eq);
      same = ground (arith, eq);
      current = record {
        region1 = ground (arith, eq);
        pcb = record pcb' { kctxt = some here };
        alive = ground (arith, eq, e₄);
        stack = ground (arith, eq, e₄, same_pcb);
        context = here;
        saved = refl;
      };
    }

-- When `forkTo` ends, the child runs, with its own kernel stack and region 1 in the MMU and a
-- saved context, and no queue, map, frame or object has changed.
pub fork_to-Switched :
    (here : Resume) (child : Ptr) (k k' : Kernel)
    → fork_to here child k ≡ ok k'
    → Switched child k k'
unfolding fork_to
fork_to-Switched here child k k' e =
    let (k₁, e₁, e₂) = >>=-eq-ok (save_context here k.curr k) _ e in
    let (pcb, at, eq) = save_context-eq here k.curr k k₁ e₁ in
    let s : Switched child k₁ k' = run_child-Switched here child k₁ k' e₂ in
    record { runs = s.runs; same = s.same ∙ ap shared eq; current = s.current }
