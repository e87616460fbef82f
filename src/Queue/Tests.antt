-- ===== src/Queue/Tests.antt =====
-- Queue.c on a heap with three nodes.
use yallnix.Prelude.{◌≡◌, refl, [], ◌∷◌, some, none, arith, ok, success, null, ◌==◌, if◌then◌else◌}
use yallnix.Queue.{Heap, Q, qnode, enq_q, deq_q, delete_q}
use yallnix.Queue.Cells.{Cells, IsQueue}
use yallnix.Queue.Walk.{delete_q-items, without}
use yallnix.Queue.Refines.{Stands, enq_q-Stands, deq_q-Stands}

abbrev cells : Cells
cells = (10, 101) ∷ (12, 102) ∷ (11, 103) ∷ []

abbrev heap : Heap
heap p =
    if p == 10
    then some (qnode 101 12)
    else if p == 12
    then some (qnode 102 11)
    else if p == 11
    then some (qnode 103 null)
    else none

abbrev queue : Q
queue = record { head = 10; tail = 11 }

queue-IsQueue : IsQueue heap queue cells
queue-IsQueue = record {
  head = refl;
  tail = refl;
  chain = (
    omega arith,
    refl,
    (omega arith, (omega arith, tt)),
    (omega arith, refl, (omega arith, tt), (omega arith, refl, tt, tt)),
  );
}

queue-Stands : Stands heap queue (some (101 ∷ 102 ∷ 103 ∷ []))
queue-Stands = record { cells = cells; is_queue = queue-IsQueue; same = refl }

enq_q-Stands_example :
    (q' : Q) × (h' : Heap) × (enq_q (some queue) 20 104 heap ≡ ok (success, some q', h'))
    × Stands h' q' (some (101 ∷ 102 ∷ 103 ∷ 104 ∷ []))
enq_q-Stands_example = enq_q-Stands heap queue (101 ∷ 102 ∷ 103 ∷ []) 20 104 queue-Stands refl

deq_q-Stands_example :
    (q' : Q) × (h' : Heap) × (deq_q (some queue) heap ≡ ok (101, some q', h'))
    × Stands h' q' (some (102 ∷ 103 ∷ []))
deq_q-Stands_example = deq_q-Stands heap queue (101 ∷ 102 ∷ 103 ∷ []) queue-Stands

delete_q-items_example :
    delete_q 4 (some queue) heap ≡ ok (some (101 ∷ 102 ∷ 103 ∷ [], without cells heap))
delete_q-items_example = delete_q-items 4 heap queue cells (omega arith) queue-IsQueue
