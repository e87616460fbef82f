-- ===== src/Queue/Walk.antt =====
-- `iterate_q` and `delete_q` of Queue.c, and their loops.
use yallnix.Prelude.{ℕ, zero, suc, ◌<◌, ◌≡◌, refl, [], ◌∷◌, some, none, arith, ok, length}
use yallnix.Queue.{Q, Heap, write, iterate_loop, iterate_q, delete_loop, delete_q}
use yallnix.Queue.Cells.{Cells, items, first, Chain, IsQueue}
use yallnix.Queue.Basic.{deq_q-cons}

iterate_loop-items :
    (f : ℕ) (h : Heap) (cs : Cells)
    → length cs < f
    → Chain h cs
    → iterate_loop f (first cs) h ≡ ok (some (items cs))
unfolding iterate_loop
iterate_loop-items zero h cs lt ch = absurd (omega arith)
iterate_loop-items (suc f) h [] lt ch = refl
iterate_loop-items (suc f) h ((a, x) ∷ cs) lt ch =
    ground (arith, iterate_loop-items f h cs (omega arith) ch.3, ch.0, ch.1)

-- With more fuel than nodes, `iterate_q` calls `itemfunc` on every item, oldest first.
pub iterate_q-items :
    (f : ℕ) (h : Heap) (q : Q) (cs : Cells)
    → length cs < f
    → IsQueue h q cs
    → iterate_q f (some q) h ≡ ok (some (items cs))
unfolding iterate_q
iterate_q-items f h q cs lt is = ground (arith, is.head, iterate_loop-items f h cs lt is.chain)

-- The heap less the nodes of the cells.
abbrev pub without : Cells → Heap → Heap
without [] h = h
without ((a, x) ∷ cs) h = without cs (write h a none)

delete_loop-items :
    (f : ℕ) (h : Heap) (q : Q) (cs : Cells)
    → length cs < f
    → IsQueue h q cs
    → delete_loop f q h ≡ ok (some (items cs, without cs h))
unfolding delete_loop
delete_loop-items zero h q cs lt is = absurd (omega arith)
delete_loop-items (suc f) h q [] lt is = ground (arith, is.head)
delete_loop-items (suc f) h q ((a, x) ∷ cs) lt is =
    let (q', e, is') = deq_q-cons h q a x cs is in
    ground
      (arith, is.head, is.chain.0, e, delete_loop-items f (write h a none) q' cs (omega arith) is')

-- With more fuel than nodes, `delete_q` ends, hands every item to `itemdelete`, oldest first, and
-- frees exactly the nodes of the queue.
pub delete_q-items :
    (f : ℕ) (h : Heap) (q : Q) (cs : Cells)
    → length cs < f
    → IsQueue h q cs
    → delete_q f (some q) h ≡ ok (some (items cs, without cs h))
unfolding delete_q
delete_q-items f h q cs lt is = delete_loop-items f h q cs lt is
