-- ===== src/Fifo.antt =====
-- The interface of GeneralDataStructures/Queue/Queue.c that the kernel's modules work with: a `q_t *`
-- is NULL or a list, oldest item first. Queue.Refines relates it to the linked list. An argument
-- `fresh` is what `malloc` returns.
use yallnix.Prelude.{
  Option, none, some, List, [], ◌∷◌, ◌++◌, Ptr, null, Status, error, success, ◌==◌, if◌then◌else◌,
}

module _ {ℓ} {A : Type ℓ} where
  abbrev pub new : Ptr → Option (List A)
  new fresh = if fresh == null then none else some []

  abbrev pub enq : Ptr → A → Option (List A) → Status × Option (List A)
  enq fresh x none = (error, none)
  enq fresh x (some q) = if fresh == null then (error, some q) else (success, some (q ++ x ∷ []))

  abbrev pub deq : Option (List A) → Option A × Option (List A)
  deq none = (none, none)
  deq (some []) = (none, some [])
  deq (some (x ∷ q)) = (some x, some q)

  abbrev pub peek : Option (List A) → Option A
  peek none = none
  peek (some []) = none
  peek (some (x ∷ q)) = some x
