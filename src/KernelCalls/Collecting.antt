-- ===== src/KernelCalls/Collecting.antt =====
-- KernelWait of KernelCalls/GeneralKernelCalls.c, called once more than there are children.
use yallnix.Prelude.{
  ℕ, suc, ◌≡◌, refl, ap, ◌∙◌, subst, some, List, [], ◌∷◌, ok, Ptr, ◌==◌, arith, Bool-cases, inl,
  inr,
}
use yallnix.HashMap.{HashMap}
use yallnix.Kernel.{Kernel, Pcb, Zombie, wait, val, returned, switched}
use yallnix.Scheduler.Switching.{CanBlock, Blocked, block_process-Blocked}
use yallnix.KernelCalls.Wait.{wait_for_child, blocked_then, collected, collect-oldest}

-- The state behind the call that collects the zombie.
emptied-CanBlock :
    (status_ptr : ℕ) (z : Zombie) (hm : HashMap Ptr) (next : Ptr) (rest : List Ptr) (k : Kernel)
    (c : CanBlock hm next rest k)
    → (d : CanBlock hm next rest (collected status_ptr z [] c.saves.pcb k)) × (d.saves.pcb
        ≡ record c.saves.pcb { zombie_q = some [] })
emptied-CanBlock status_ptr z hm next rest k c = (
  record {
    saves = record {
      pcb = record c.saves.pcb { zombie_q = some [] };
      old = c.saves.old;
      alive = ground arith;
      context = c.saves.context;
    };
    blocked = c.blocked;
    valid = c.valid;
    absent = c.absent;
    memory = c.memory;
    ready = c.ready;
    runs = elim (Bool-cases (next == k.curr)) [
      | inl same ↦ record {
        pcb = record c.saves.pcb { zombie_q = some [] };
        alive = rw same refl;
        context = inl (c.saves.old, c.saves.context);
      }
      | inr miss ↦ record {
        pcb = c.runs.pcb;
        alive = rw miss c.runs.alive;
        context = c.runs.context;
      }
    ];
  },
  refl,
)

wait_for_child-blocks :
    (status_ptr n : ℕ) (hm : HashMap Ptr) (next : Ptr) (rest : List Ptr) (k : Kernel)
    (c : CanBlock hm next rest k)
    → c.saves.pcb.num_children ≡ suc n
    → c.saves.pcb.zombie_q ≡ some []
    → (k' : Kernel) × (wait_for_child status_ptr k ≡ ok (switched, k'))
      × Blocked hm c.saves.pcb.pid next rest k k'
unfolding wait_for_child blocked_then
wait_for_child-blocks status_ptr n hm next rest k c some_child none_left =
    let (k', run, b) = block_process-Blocked (wait status_ptr) hm next rest k c in
    (k', ground (arith, c.saves.alive, some_child, none_left, run), b)

-- `KernelWait`, behind the tests of its pointer, in a process with a positive `numChildren` and
-- one zombie, which can be saved and is not in the valid map of blocked processes, while the
-- oldest ready process can run and there is memory: it returns the number of the child and stores
-- its status; and the next call, whatever `numChildren` was, does not return but switches to the
-- oldest ready process, and the caller is in the map of blocked processes, which gains it alone.
pub wait_for_child-twice :
    (status_ptr n : ℕ) (z : Zombie) (hm : HashMap Ptr) (next : Ptr) (rest : List Ptr) (k : Kernel)
    (c : CanBlock hm next rest k)
    → c.saves.pcb.num_children ≡ suc n
    → c.saves.pcb.zombie_q ≡ some (z ∷ [])
    → (k₁ : Kernel) × (k₂ : Kernel) × (wait_for_child status_ptr k ≡ ok (returned (val z.pid), k₁))
      × (k₁.stored ≡ (k.curr, status_ptr, z.exit_status) ∷ k.stored)
      × (wait_for_child status_ptr k₁ ≡ ok (switched, k₂))
      × Blocked hm c.saves.pcb.pid next rest k₁ k₂
unfolding wait_for_child
wait_for_child-twice status_ptr n z hm next rest k c some_child one =
    let k₁ : Kernel = collected status_ptr z [] c.saves.pcb k in
    let (d, same) = emptied-CanBlock status_ptr z hm next rest k c in
    let (k₂, run, b) =
      wait_for_child-blocks status_ptr n hm next rest k₁ d
        (ap (λ (b : Pcb). b.num_children) same ∙ some_child) (ap (λ (b : Pcb). b.zombie_q) same) in
    (
      k₁,
      k₂,
      ground (
        arith,
        c.saves.alive,
        some_child,
        one,
        collect-oldest status_ptr z [] c.saves.pcb k c.saves.alive one,
      ),
      refl,
      run,
      subst (λ i. Blocked hm i next rest k₁ k₂) (ap (λ (b : Pcb). b.pid) same) b,
    )
