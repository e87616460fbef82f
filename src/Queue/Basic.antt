-- ===== src/Queue/Basic.antt =====
-- The queue operations of Queue.c against the list of the queue's cells.
use yallnix.Prelude.{
  ◌≡◌, ◌≢◌, refl, sym, [], ◌∷◌, ◌++◌, some, none, arith, ok, error, success, Ptr, null,
}
use yallnix.Queue.{Q, Heap, qnode, write, make_q, set_behind, link, enq_q, deq_q, peek_q}
use yallnix.Queue.Cells.{
  Cells, last_from, Absent, Chain, IsQueue, Chain-write, Absent-append, Absent-of_free,
  last_from-append, last-node, Absent-last,
}

-- Writing the link of the last node appends a node to the chain.
Chain-link :
    (h : Heap) (a x y fresh z : Ptr) (cs : Cells)
    → fresh ≢ null
    → h fresh ≡ some (qnode z null)
    → Absent fresh ((a, x) ∷ cs)
    → h (last_from a cs) ≡ some (qnode y null)
    → Chain h ((a, x) ∷ cs)
    → Chain (write h (last_from a cs) (some (qnode y fresh))) ((a, x) ∷ cs ++ (fresh, z) ∷ [])
Chain-link h a x y fresh z [] nn e out l ch =
    (ch.0, ground arith, ((λ p. out.0 (sym p)), tt), (nn, ground arith, tt, tt))
Chain-link h a x y fresh z ((b, w) ∷ cs) nn e out l ch = (
  ch.0,
  ground (arith, Absent-last a b w cs ch.2),
  Absent-append a fresh z ((b, w) ∷ cs) ch.2 (λ p. out.0 (sym p)),
  Chain-link h b w y fresh z cs nn e out.1 l ch.3,
)

-- `enq_q` on a queue with fresh memory succeeds, and appends the item behind all others.
pub enq_q-append :
    (h : Heap) (q : Q) (cs : Cells) (fresh x : Ptr)
    → IsQueue h q cs
    → fresh ≢ null
    → h fresh ≡ none
    → (q' : Q) × (h' : Heap) × (enq_q (some q) fresh x h ≡ ok (success, some q', h'))
      × IsQueue h' q' (cs ++ (fresh, x) ∷ [])
unfolding enq_q link set_behind
enq_q-append h q [] fresh x is nn free = (
  record { head = fresh; tail = fresh },
  write h fresh (some (qnode x null)),
  ground (arith, is.head),
  record { head = refl; tail = refl; chain = (nn, ground arith, tt, tt) },
)
enq_q-append h q ((a, y) ∷ cs) fresh x is nn free =
    let h₁ : Heap = write h fresh (some (qnode x null)) in
    let out : Absent fresh ((a, y) ∷ cs) = Absent-of_free h fresh ((a, y) ∷ cs) free is.chain in
    let end : (z : Ptr) × (h (last_from a cs) ≡ some (qnode z null)) =
      last-node h a y cs is.chain in
    let there : h₁ (last_from a cs) ≡ some (qnode end.0 null) =
      ground (arith, Absent-last fresh a y cs out, end.1) in
    (
      record q { tail = fresh },
      write h₁ (last_from a cs) (some (qnode end.0 fresh)),
      ground (arith, is.head, is.chain.0, is.tail, there),
      record {
        head = is.head;
        tail = sym (last_from-append a fresh x cs);
        chain =
            Chain-link h₁ a y end.0 fresh x cs nn (ground arith) out there
              (Chain-write h fresh _ ((a, y) ∷ cs) out is.chain);
      },
    )

-- Without memory, and without a queue, `enq_q` returns ERROR and changes nothing.
pub enq_q-error :
    (q : Q) (h : Heap) (fresh x : Ptr)
    → (enq_q (some q) null x h ≡ ok (error, some q, h))
      × (enq_q none fresh x h ≡ ok (error, none, h))
unfolding enq_q
enq_q-error q h fresh x = (refl, refl)

-- `deq_q` takes the oldest item, and frees its node and no other.
pub deq_q-cons :
    (h : Heap) (q : Q) (a x : Ptr) (cs : Cells)
    → IsQueue h q ((a, x) ∷ cs)
    → (q' : Q) × (deq_q (some q) h ≡ ok (x, some q', write h a none))
      × IsQueue (write h a none) q' cs
unfolding deq_q
deq_q-cons h q a x [] is = (
  record { head = null; tail = null },
  ground (arith, is.head, is.chain.0, is.chain.1),
  record { head = refl; tail = refl; chain = tt },
)
deq_q-cons h q a x ((b, y) ∷ cs) is = (
  record { head = b; tail = q.tail },
  ground (arith, is.head, is.chain.0, is.chain.1, is.chain.3.0),
  record {
    head = refl;
    tail = is.tail;
    chain = Chain-write h a none ((b, y) ∷ cs) is.chain.2 is.chain.3;
  },
)

pub deq_q-nil : (h : Heap) (q : Q) → IsQueue h q [] → deq_q (some q) h ≡ ok (null, some q, h)
unfolding deq_q
deq_q-nil h q is = ground (arith, is.head)

-- The item at the front, or `null`.
abbrev pub front : Cells → Ptr
front [] = null
front ((a, x) ∷ cs) = x

-- `peek_q` reads what `deq_q` would return.
pub peek_q-front :
    (h : Heap) (q : Q) (cs : Cells) → IsQueue h q cs → peek_q (some q) h ≡ ok (front cs)
unfolding peek_q
peek_q-front h q [] is = ground (arith, is.head)
peek_q-front h q ((a, x) ∷ cs) is = ground (arith, is.head, is.chain.0, is.chain.1)

pub make_q-IsQueue :
    (h : Heap) (fresh : Ptr) → fresh ≢ null → (q : Q) × (make_q fresh ≡ some q) × IsQueue h q []
unfolding make_q
make_q-IsQueue h fresh nn = (
  record { head = null; tail = null },
  ground arith,
  record { head = refl; tail = refl; chain = tt },
)
