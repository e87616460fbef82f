-- ===== src/Queue/Refines.antt =====
-- Queue.c and the queues of Fifo: the linked list against the list of its items.
use yallnix.Prelude.{
  ◌≡◌, refl, sym, ap, ◌∙◌, List, [], ◌∷◌, ◌++◌, Option, some, none, arith, ok, Ptr, null,
  Bool-cases, ◌==◌, inl, inr,
}
use yallnix.Queue.{Heap, Q, enq_q, deq_q, peek_q}
use yallnix.Queue.Cells.{Cells, items, items-append, IsQueue}
use yallnix.Queue.Basic.{enq_q-append, enq_q-error, deq_q-cons, deq_q-nil, front, peek_q-front}
use yallnix.Fifo

-- What C returns for an item or its absence.
abbrev pub to_ptr : Option Ptr → Ptr
to_ptr none = null
to_ptr (some x) = x

-- The linked list stands for a queue of Fifo.
pub record Stands (h : Heap) (q : Q) (fifo : Option (List Ptr)) : Type 0 where
  pub cells : Cells
  pub is_queue : IsQueue h q cells
  pub same : fifo ≡ some (items cells)

-- `enq_q` on a linked list that stands for a queue, with memory that is not in use or without
-- memory, returns what Fifo.enq returns, and the list then stands for the queue of Fifo.enq.
pub enq_q-Stands :
    (h : Heap) (q : Q) (xs : List Ptr) (fresh x : Ptr)
    → Stands h q (some xs)
    → h fresh ≡ none
    → (q' : Q) × (h' : Heap) × (enq_q (some q) fresh x h
        ≡ ok ((Fifo.enq fresh x (some xs)).0, some q', h'))
      × Stands h' q' (Fifo.enq fresh x (some xs)).1
enq_q-Stands h q xs fresh x s free = elim (Bool-cases (fresh == null)) [
  | inl full ↦
      let nothing : fresh ≡ null = ground arith in
      (q, h, ground (arith, enq_q-error q h fresh x), ground arith)
  | inr got ↦
      let (q', h', run, is') = enq_q-append h q s.cells fresh x s.is_queue (ground arith) free in
      (
        q',
        h',
        ground (arith, run),
        record {
          cells = s.cells ++ (fresh, x) ∷ [];
          is_queue = is';
          same = ground (arith, s.same, items-append s.cells ((fresh, x) ∷ []));
        },
      )
]

deq_cells :
    (h : Heap) (q : Q) (cs : Cells)
    → IsQueue h q cs
    → (q' : Q) × (h' : Heap) × (deq_q (some q) h
        ≡ ok (to_ptr (Fifo.deq (some (items cs))).0, some q', h'))
      × Stands h' q' (Fifo.deq (some (items cs))).1
deq_cells h q [] is = (q, h, deq_q-nil h q is, record { cells = []; is_queue = is; same = refl })
deq_cells h q ((a, x) ∷ cs) is =
    let (q', run, is') = deq_q-cons h q a x cs is in
    (q', _, run, record { cells = cs; is_queue = is'; same = refl })

-- `deq_q` on a linked list that stands for a queue returns the item that Fifo.deq returns, or NULL
-- for none, and the list then stands for the queue of Fifo.deq.
pub deq_q-Stands :
    (h : Heap) (q : Q) (xs : List Ptr)
    → Stands h q (some xs)
    → (q' : Q) × (h' : Heap) × (deq_q (some q) h ≡ ok (to_ptr (Fifo.deq (some xs)).0, some q', h'))
      × Stands h' q' (Fifo.deq (some xs)).1
deq_q-Stands h q xs s = rw s.same (deq_cells h q s.cells s.is_queue)

peek_cells : (cs : Cells) → front cs ≡ to_ptr (Fifo.peek (some (items cs)))
peek_cells [] = refl
peek_cells ((a, x) ∷ cs) = refl

-- `peek_q` returns the item that Fifo.peek returns, or NULL for none.
pub peek_q-Stands :
    (h : Heap) (q : Q) (xs : List Ptr)
    → Stands h q (some xs)
    → peek_q (some q) h ≡ ok (to_ptr (Fifo.peek (some xs)))
peek_q-Stands h q xs s =
    peek_q-front h q s.cells s.is_queue
    ∙ ap ok (peek_cells s.cells ∙ ap (λ o. to_ptr (Fifo.peek o)) (sym s.same))
