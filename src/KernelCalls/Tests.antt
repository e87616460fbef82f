-- ===== src/KernelCalls/Tests.antt =====
-- Locks and pipes as the processes of Kernel.Sample use them.
use yallnix.Prelude.{
  ℕ, Option, ◌+◌, ◌≡◌, refl, some, none, ok, List, [], ◌∷◌, ◌++◌, success, Ptr, arith, ltb, inl,
  ◌==◌, if◌then◌else◌,
}
use yallnix.Prelude.Int.{pos}
use yallnix.Set
use yallnix.Set.{find_loop}
use yallnix.HashMap.{HashMap, slot, locate}
use yallnix.HashMap
use yallnix.Kernel.{
  Kernel, Pcb, Zombie, Lock, trap, acquire, val, returned, switched, took, set_pcb,
}
use yallnix.Kernel.Switch.{switch_between, run_next}
use yallnix.Brk.Sample.{machine, memory}
use yallnix.KernelCalls.Wait.{wait_for_child}
use yallnix.KernelCalls.Collecting.{wait_for_child-twice}
use yallnix.Scheduler.Switching.{Blocked}
use yallnix.Kernel.Sample.{pcb, one, one-IsValid, held, sample}
use yallnix.Scheduler.{run_ready, block_process}
use yallnix.SyncObjects.Deletion.{Registered}
use yallnix.KernelCalls.Lock.{set_lock, acquire_loop, kernel_release}
use yallnix.KernelCalls.Pipe.{all_writable, set_pipe, kernel_pipe_read, kernel_pipe_write}
use yallnix.KernelCalls.Mutex.{acquire_loop-owner, acquire_loop-waits, kernel_release-hands_on}
use yallnix.KernelCalls.Cvar.{kernel_cvar_broadcast}
use yallnix.KernelCalls.Wakeup.{kernel_cvar_broadcast-wakes}
use yallnix.KernelCalls.Stream.{kernel_pipe_write-appends, kernel_pipe_read-oldest}

lock-Registered : Registered sample.lock_map (pos 0) 40
unfolding Set.find find_loop
lock-Registered = record {
  map = one 0 40;
  is = refl;
  valid = one-IsValid 0 40;
  fits = tt;
  found = refl;
}

pipe-Registered : Registered sample.pipe_map (pos 2) 60
unfolding Set.find find_loop
pipe-Registered = record {
  map = one 2 60;
  is = refl;
  valid = one-IsValid 2 60;
  fits = tt;
  found = refl;
}

-- The lock without an owner.
abbrev idle : Lock
idle = record { owner = none; waiting_q = some [] }

abbrev idle_sample : Kernel
idle_sample = record sample { locks = λ p. if p == 40 then some idle else none }

acquire_loop-owner_example :
    (lock : Lock) × (idle_sample.locks 40 ≡ some lock)
    × (lock.owner ≡ none)
    × ((set_lock 40 (record idle { owner = some 10 }) idle_sample).locks 40
        ≡ some (record lock { owner = some 10 }))
    × (sample.curr ≡ 10)
unfolding acquire_loop
acquire_loop-owner_example =
    acquire_loop-owner idle_sample (set_lock 40 (record idle { owner = some 10 }) idle_sample) 40 0
      refl

-- Process 2 holds the lock, and process 1 asks for it.
abbrev taken_sample : Kernel
taken_sample = record sample {
  locks = λ p. if p == 40 then some (record held { owner = some 20 }) else none;
}

abbrev both : HashMap Ptr
both = record { size = 1; sets = some ((pos 1, 10) ∷ (pos 3, 30) ∷ []) ∷ [] }

abbrev waiting : Kernel
waiting =
    record (set_pcb 10 (pcb 1 (acquire 40)) (
      took (
        set_lock 40 (record { owner = some 20; waiting_q = some (30 ∷ 10 ∷ []) })
          (took taken_sample)))) {
            curr = 20;
            stack_map = 2 ∷ [];
            ptbr1 = 20;
            ready_q = some [];
            blocked = some both;
          }

acquire_loop-waits_example :
    (other : Ptr) × (waiters : List Ptr) × (taken_sample.locks 40
      ≡ some (record { owner = some other; waiting_q = some waiters }))
    × (waiting.locks 40
        ≡ some (record { owner = some other; waiting_q = some (waiters ++ 10 ∷ []) }))
unfolding acquire_loop block_process run_ready switch_between run_next HashMap.insert locate slot
    Set.insert Set.find find_loop
acquire_loop-waits_example = acquire_loop-waits taken_sample waiting 40 refl

kernel_release-hands_on_example :
    (k' : Kernel) × (kernel_release (pos 0) sample ≡ ok (success, k'))
    × (k'.locks 40 ≡ some (record { owner = none; waiting_q = some [] }))
    × (k'.ready_q ≡ some (20 ∷ 30 ∷ []))
    × (k'.curr ≡ 10)
unfolding Set.find find_loop
kernel_release-hands_on_example =
    kernel_release-hands_on sample (pos 0) 40 30 (pcb 3 (acquire 40)) [] (20 ∷ []) (one 3 30)
      lock-Registered refl refl refl (one-IsValid 3 30) refl refl (omega arith)

-- Two bytes are mapped.
abbrev two_bytes : ℕ → Option ℕ
two_bytes i = if ltb i 2 then some (i + 1) else none

kernel_pipe_write-appends_example :
    kernel_pipe_write 256 (pos 2) two_bytes (pos 2) sample
    ≡ ok (
      returned (val 2),
      set_pipe 60 (record { buffer = 7 ∷ 8 ∷ 9 ∷ 1 ∷ 2 ∷ []; waiting_q = some [] }) sample,
    )
kernel_pipe_write-appends_example =
    kernel_pipe_write-appends 256 1 (pos 2) two_bytes (λ i. i + 1) sample 60 (7 ∷ 8 ∷ 9 ∷ [])
      pipe-Registered refl (omega arith) (omega arith) (λ i lt. ground (arith, lt))

-- Process 1 with the two mapped pages of Brk.Sample.
abbrev reader : Kernel
reader = set_pcb 10 (record (pcb 1 trap) { r1_table = memory.table }) sample

kernel_pipe_read-oldest_example :
    (k' : Kernel) × (kernel_pipe_read machine (pos 2) 140 (pos 2) reader
      ≡ ok (returned (val 2), k'))
    × (k'.copied ≡ (10, 140, 7 ∷ 8 ∷ []) ∷ [])
    × (k'.pipes 60 ≡ some (record { buffer = 9 ∷ []; waiting_q = some [] }))
unfolding all_writable
kernel_pipe_read-oldest_example =
    kernel_pipe_read-oldest machine 1 140 (pos 2) reader 60 (7 ∷ 8 ∷ 9 ∷ []) pipe-Registered refl
      (omega arith) (omega arith)
      (record { owner = record (pcb 1 trap) { r1_table = memory.table }; alive = refl; all = refl })

-- Process 3 waits on the condition variable.
abbrev cvar_sample : Kernel
cvar_sample = record sample { cvars = λ p. if p == 50 then some (30 ∷ []) else none }

cvar-Registered : Registered cvar_sample.cvar_map (pos 1) 50
unfolding Set.find find_loop
cvar-Registered = record {
  map = one 1 50;
  is = refl;
  valid = one-IsValid 1 50;
  fits = tt;
  found = refl;
}

kernel_cvar_broadcast-wakes_example :
    (k' : Kernel) × (kernel_cvar_broadcast (pos 1) cvar_sample ≡ ok (success, k'))
    × (k'.cvars 50 ≡ some [])
    × (k'.ready_q ≡ some (20 ∷ 30 ∷ []))
unfolding Set.find find_loop
kernel_cvar_broadcast-wakes_example =
    kernel_cvar_broadcast-wakes cvar_sample (pos 1) 50 (30 ∷ []) (20 ∷ []) (one 3 30)
      cvar-Registered refl refl (one-IsValid 3 30) ((pcb 3 (acquire 40), refl, refl), tt, tt) refl
      (λ n. omega arith)

abbrev zombie : Zombie
zombie = record { pid = 4; exit_status = pos 7 }

abbrev parent : Pcb
parent = record (pcb 1 trap) { num_children = 1; zombie_q = some (zombie ∷ []) }

abbrev with_child : Kernel
with_child = set_pcb 10 parent sample

-- The only child has exited; the second call blocks.
wait_for_child-twice_example :
    (k₁ : Kernel) × (k₂ : Kernel) × (wait_for_child 140 with_child ≡ ok (returned (val 4), k₁))
    × (k₁.stored ≡ (10, 140, pos 7) ∷ [])
    × (wait_for_child 140 k₁ ≡ ok (switched, k₂))
    × Blocked (one 3 30) 1 20 [] k₁ k₂
unfolding Set.find find_loop
wait_for_child-twice_example =
    wait_for_child-twice 140 0 zombie (one 3 30) 20 [] with_child
      (record {
        saves = record { pcb = parent; old = trap; alive = refl; context = refl };
        blocked = refl;
        valid = one-IsValid 3 30;
        absent = refl;
        memory = omega arith;
        ready = refl;
        runs = record { pcb = pcb 2 trap; alive = refl; context = inl (trap, refl) };
      })
      refl refl
