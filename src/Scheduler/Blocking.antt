-- ===== src/Scheduler/Blocking.antt =====
-- `unblockProcess` of Scheduler.c: the ready queue and the map of blocked processes behind it.
use yallnix.Prelude.{
  ℕ, ◌≡◌, ◌≢◌, none, some, List, [], ◌∷◌, ◌++◌, ok, Ptr, null, if◌then◌else◌, success, arith,
}
use yallnix.Prelude.Int.{ℤ, pos, eq_ℤ}
use yallnix.HashMap.{HashMap}
use yallnix.HashMap.Buckets.{IsValid}
use yallnix.HashMap.Laws.{view, remove-view}
use yallnix.Kernel.{Kernel, fresh, took}
use yallnix.Scheduler.{unblock_process}

-- `unblockProcess` of a process that a valid map of blocked processes holds, with a ready queue
-- and memory for a node: it succeeds, the process is the youngest ready one, the map loses it
-- alone, and nothing else changes.
pub unblock_process-ready :
    (k : Kernel) (pid : ℕ) (p : Ptr) (hm : HashMap Ptr) (q : List Ptr)
    → k.blocked ≡ some hm
    → IsValid hm
    → view hm (pos pid) ≡ some p
    → k.ready_q ≡ some q
    → fresh k ≢ null
    → (hm' : HashMap Ptr) × (unblock_process pid k
        ≡ ok (success, record (took k) { ready_q = some (q ++ p ∷ []); blocked = some hm' }))
      × IsValid hm'
      × ((j : ℤ) → view hm' j ≡ (if eq_ℤ (pos pid) j then none else view hm j))
unfolding unblock_process
unblock_process-ready k pid p hm q eb v at eq got =
    let (hm', run, v', size, gone) = remove-view (pos pid) hm v tt in
    (hm', ground (arith, run), v', gone)

-- Unblocking a process that is not blocked succeeds, and no queue and no other process changes.
pub unblock_process-absent :
    (k : Kernel) (pid : ℕ) (hm : HashMap Ptr)
    → k.blocked ≡ some hm
    → IsValid hm
    → view hm (pos pid) ≡ none
    → (hm' : HashMap Ptr) × (unblock_process pid k ≡ ok (success, record k { blocked = some hm' }))
      × IsValid hm'
      × ((j : ℤ) → view hm' j ≡ (if eq_ℤ (pos pid) j then none else view hm j))
unfolding unblock_process
unblock_process-absent k pid hm eb v at =
    let (hm', run, v', size, gone) = remove-view (pos pid) hm v tt in
    (hm', ground (arith, run), v', gone)
