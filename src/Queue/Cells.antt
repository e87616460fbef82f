-- ===== src/Queue/Cells.antt =====
-- What a queue of Queue.c stands for: the address and the item of each node, oldest first.
use yallnix.Prelude.{◌≡◌, ◌≢◌, refl, List, [], ◌∷◌, ◌++◌, some, none, Option, arith, Ptr, null}
use yallnix.Queue.{QNode, Q, Heap, qnode, write}

abbrev pub Cells : Type 0
Cells = List (Ptr × Ptr)

abbrev pub items : Cells → List Ptr
items [] = []
items ((a, x) ∷ cs) = x ∷ items cs

abbrev pub first : Cells → Ptr
first [] = null
first ((a, x) ∷ cs) = a

abbrev pub last_from : Ptr → Cells → Ptr
last_from p [] = p
last_from p ((a, x) ∷ cs) = last_from a cs

abbrev pub Absent : Ptr → Cells → Type 0
Absent p [] = Unit {0}
Absent p ((a, x) ∷ cs) = (p ≢ a) × Absent p cs

-- The nodes are allocated, distinct, not NULL, and each leads to the next.
abbrev pub Chain : Heap → Cells → Type 0
Chain h [] = Unit {0}
Chain h ((a, x) ∷ cs) = (a ≢ null) × (h a ≡ some (qnode x (first cs))) × Absent a cs × Chain h cs

pub record IsQueue (h : Heap) (q : Q) (cs : Cells) : Type 0 where
  pub head : q.head ≡ first cs
  pub tail : q.tail ≡ last_from null cs
  pub chain : Chain h cs

-- A chain survives a write elsewhere.
pub Chain-write :
    (h : Heap) (p : Ptr) (c : Option QNode) (cs : Cells)
    → Absent p cs
    → Chain h cs
    → Chain (write h p c) cs
Chain-write h p c [] out ch = tt
Chain-write h p c ((a, x) ∷ cs) out ch = (ch.0, ground arith, ch.2, Chain-write h p c cs out.1 ch.3)

pub Absent-append : (p a x : Ptr) (cs : Cells) → Absent p cs → p ≢ a → Absent p (cs ++ (a, x) ∷ [])
Absent-append p a x [] out ne = (ne, tt)
Absent-append p a x ((b, y) ∷ cs) out ne = (out.0, Absent-append p a x cs out.1 ne)

-- A node that is not allocated is in no chain.
pub Absent-of_free : (h : Heap) (p : Ptr) (cs : Cells) → h p ≡ none → Chain h cs → Absent p cs
Absent-of_free h p [] e ch = tt
Absent-of_free h p ((a, x) ∷ cs) e ch = (ground arith, Absent-of_free h p cs e ch.3)

pub items-append : (cs ds : Cells) → items (cs ++ ds) ≡ items cs ++ items ds
items-append [] ds = refl
items-append ((a, x) ∷ cs) ds = λ i. x ∷ items-append cs ds i

pub last_from-append : (p a x : Ptr) (cs : Cells) → last_from p (cs ++ (a, x) ∷ []) ≡ a
last_from-append p a x [] = refl
last_from-append p a x ((b, y) ∷ cs) = last_from-append b a x cs

-- The last node of a chain is allocated, and leads to NULL.
pub last-node :
    (h : Heap) (a x : Ptr) (cs : Cells)
    → Chain h ((a, x) ∷ cs)
    → (y : Ptr) × (h (last_from a cs) ≡ some (qnode y null))
last-node h a x [] ch = (x, ch.1)
last-node h a x ((b, y) ∷ cs) ch = last-node h b y cs ch.3

pub Absent-last : (p a x : Ptr) (cs : Cells) → Absent p ((a, x) ∷ cs) → p ≢ last_from a cs
Absent-last p a x [] out = out.0
Absent-last p a x ((b, y) ∷ cs) out = Absent-last p b y cs out.1
