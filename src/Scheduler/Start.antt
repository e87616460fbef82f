-- ===== src/Scheduler/Start.antt =====
-- `initScheduler` and `initInitProcess` of Scheduler.c.
use yallnix.Prelude.{
  ℕ, zero, suc, ◌+◌, Option, none, some, List, [], ◌∷◌, Run, ok, ◌>>=◌, Ptr, null, ◌==◌,
  if◌then◌else◌, Status, error, success, replicate,
}
use yallnix.Prelude.Int.{pos}
use yallnix.HashMap
use yallnix.Fifo
use yallnix.PageTable.{Pte}
use yallnix.Kernel.{Kernel, unwritten, fresh, took, set_pcb}
use yallnix.Scheduler.Creation.{answers, took_many}

-- The loop over the terminals: the two queues of each, NULL where it has not come.
unfoldable pub init_queues :
    ℕ → Kernel → Status × List (Option (List Ptr)) × List (Option (List Ptr)) × Kernel
init_queues zero k = (success, [], [], k)
init_queues (suc n) k =
    let (st, transmitting, reading, k') = init_queues n (took_many 2 k) in
    if k.mallocs 0 == null
    then (error, replicate (suc n) none, replicate (suc n) none, took k)
    else if k.mallocs 1 == null
    then (error, some [] ∷ replicate n none, replicate (suc n) none, took_many 2 k)
    else (st, some [] ∷ transmitting, some [] ∷ reading, k')

-- The queues of the terminals, behind the maps.
unfoldable pub init_terminals : ℕ → Kernel → Status × Kernel
init_terminals n k =
    let (st, transmitting, reading, k') = init_queues n k in
    (st, record k' { transmitting_qs = transmitting; reading_qs = reading })

-- A map has 22 allocations: its own, its array's, and those of its twenty buckets.
unfoldable pub init_sleeping : ℕ → Kernel → Run (Status × Kernel)
init_sleeping n k = do
  sleeping ← HashMap.new 20 (answers k 0) (answers k 1) (λ i. answers k (2 + i))
  let k₁ : Kernel = record (took_many 22 k) { sleeping = sleeping }
  elim sleeping [ none ↦ ok (error, k₁) | some _ ↦ ok (init_terminals n k₁) ]

unfoldable pub init_blocked : ℕ → Kernel → Run (Status × Kernel)
init_blocked n k = do
  blocked ← HashMap.new 20 (answers k 0) (answers k 1) (λ i. answers k (2 + i))
  let k₁ : Kernel = record (took_many 22 k) { blocked = blocked }
  elim blocked [ none ↦ ok (error, k₁) | some _ ↦ init_sleeping n k₁ ]

unfoldable pub init_scheduler : ℕ → Kernel → Run (Status × Kernel)
init_scheduler n k =
    let k₁ : Kernel = record (took k) {
      next_pid = 0;
      next_sync_id = 0;
      ready_q = Fifo.new (fresh k);
    } in
    if fresh k == null then ok (error, k₁) else init_blocked n k₁

-- The frames of the first process's kernel stack are those that the machine runs on, and its context
-- is only allocated: it is written when the process is first switched out. What
-- `HashMap_new` returns is not tested.
unfoldable pub init_init_process : List Pte → Kernel → Run (Option Ptr × Kernel)
init_init_process table k =
    let k₁ : Kernel = record k { next_pid = k.next_pid + 1; init_pid = k.next_pid } in
    if answers k 0
    then (if answers k 1
        then (if answers k 2
            then (do
              children ← HashMap.new 10 (answers k 3) (answers k 4) (λ i. answers k (5 + i))
              ok (
                some (fresh k),
                set_pcb (fresh k)
                    (record {
                      pid = k.next_pid;
                      brk = 0;
                      kctxt = some unwritten;
                      children = children;
                      num_children = 0;
                      parent = none;
                      zombie_q = none;
                      r1_table = table;
                      ticks = pos 0;
                      stack_pfns = k.stack_map;
                    })
                    (took_many 15 k₁),
              ))
            else ok (none, took_many 3 k₁))
        else ok (none, took_many 2 k₁))
    else ok (none, took k)
