-- ===== src/Queue.antt =====
-- GeneralDataStructures/Queue/Queue.c: a linked list with a head and a tail pointer, on an explicit
-- heap of nodes. An argument `fresh` is what `malloc` returns, `null` when memory is exhausted. A
-- `q_t *` is an Option of the structure that it points to; each function returns the new one.
pub mod Cells
pub mod Basic
pub mod Walk
pub mod Refines
mod Tests
use yallnix.Prelude.{
  ℕ, zero, suc, Bool, Option, none, some, List, [], ◌∷◌, Run, ok, fault, ◌>>=◌, deref, Status,
  error, success, Ptr, null, ◌==◌, if◌then◌else◌,
}

pub record QNode : Type 0 where
  pub item : Ptr
  pub node_behind : Ptr

pub record Q : Type 0 where
  pub head : Ptr
  pub tail : Ptr

abbrev pub Heap : Type 0
Heap = Ptr → Option QNode

abbrev pub qnode : Ptr → Ptr → QNode
qnode x next = record { item = x; node_behind = next }

abbrev pub write : Heap → Ptr → Option QNode → Heap
write h p c a = if a == p then c else h a

pub make_q : Ptr → Option Q
make_q fresh = if fresh == null then none else some (record { head = null; tail = null })

-- `queue->tail->node_behind = node`.
set_behind : Heap → Ptr → Ptr → Run Heap
set_behind h p next = do n ← deref (h p); ok (write h p (some (record n { node_behind = next })))

-- The part of `enq_q` behind the two NULL checks.
link : Q → Ptr → Ptr → Heap → Run (Status × Option Q × Heap)
unfolding set_behind
link q fresh x h =
    let h₁ : Heap = write h fresh (some (qnode x null)) in
    if q.head == null
    then ok (success, some (record { head = fresh; tail = fresh }), h₁)
    else do h₂ ← set_behind h₁ q.tail fresh; ok (success, some (record q { tail = fresh }), h₂)

pub enq_q : Option Q → Ptr → Ptr → Heap → Run (Status × Option Q × Heap)
enq_q none fresh x h = ok (error, none, h)
enq_q (some q) fresh x h = if fresh == null then ok (error, some q, h) else link q fresh x h

-- The item, `null` for an empty or missing queue.
pub deq_q : Option Q → Heap → Run (Ptr × Option Q × Heap)
deq_q none h = ok (null, none, h)
deq_q (some q) h = if q.head == null then ok (null, some q, h) else do
  n ← deref (h q.head)
  ok (
    n.item,
    some (record { head = n.node_behind; tail = if n.node_behind == null then null else q.tail }),
    write h q.head none,
  )

pub peek_q : Option Q → Heap → Run Ptr
peek_q none h = ok null
peek_q (some q) h = if q.head == null then ok null else do n ← deref (h q.head); ok n.item

-- A loop that outruns its fuel is `none`; else the items that `itemfunc` was called with, in order.
iterate_loop : ℕ → Ptr → Heap → Run (Option (List Ptr))
iterate_loop zero p h = ok none
iterate_loop (suc f) p h = if p == null then ok (some []) else do
  n ← deref (h p)
  rest ← iterate_loop f n.node_behind h
  ok (elim rest [ none ↦ none | some xs ↦ some (n.item ∷ xs) ])

pub iterate_q : ℕ → Option Q → Heap → Run (Option (List Ptr))
unfolding iterate_loop
iterate_q f none h = ok (some [])
iterate_q f (some q) h = iterate_loop f q.head h

-- The items that `itemdelete` was called with, and the heap left behind.
pub delete_loop : ℕ → Q → Heap → Run (Option (List Ptr × Heap))
unfolding deq_q
delete_loop zero q h = ok none
delete_loop (suc f) q h = if q.head == null then ok (some ([], h)) else do
  (x, rest, h') ← deq_q (some q) h
  q' ← deref rest
  more ← delete_loop f q' h'
  ok (elim more [ none ↦ none | some (xs, g) ↦ some (x ∷ xs, g) ])

unfoldable pub delete_q : ℕ → Option Q → Heap → Run (Option (List Ptr × Heap))
delete_q f none h = ok (some ([], h))
delete_q f (some q) h = delete_loop f q h
