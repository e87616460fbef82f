-- ===== src/SyncObjects/Deletion.antt =====
-- What the three deletions do to the maps and to the objects.
use yallnix.Prelude.{
  ◌≡◌, ◌≢◌, Option, none, some, List, [], ◌∷◌, ok, Ptr, null, error, success, arith,
}
use yallnix.Prelude.Int.{ℤ, eq_ℤ_refl}
use yallnix.HashMap.{HashMap}
use yallnix.HashMap
use yallnix.HashMap.Buckets.{IsValid, Fits}
use yallnix.HashMap.Laws.{view, find-view, remove-view}
use yallnix.Fifo
use yallnix.Kernel.{Kernel, Pipe, fresh, took, update}
use yallnix.SyncObjects.{
  get_lock, delete_lock, drop_lock, get_cvar, delete_cvar, drop_cvar, get_pipe, delete_pipe,
  drop_pipe,
}

-- The map finds the object under the identifier.
pub record Registered (m : Option (HashMap Ptr)) (id : ℤ) (object : Ptr) : Type 0 where
  pub map : HashMap Ptr
  pub is : m ≡ some map
  pub valid : IsValid map
  pub fits : Fits id map.size
  pub found : view map id ≡ some object

removed-find :
    (m : Option (HashMap Ptr)) (id : ℤ) (object : Ptr)
    → Registered m id object
    → (hm' : HashMap Ptr) × (HashMap.remove id m ≡ ok (some object, some hm'))
      × (HashMap.find id (some hm') ≡ ok none)
removed-find m id object r =
    let (hm', run, v', size, gone) = remove-view id r.map r.valid r.fits in
    (
      hm',
      ground (arith, r.is, run, r.found),
      ground (arith, find-view id hm' v', r.fits, size, gone id, eq_ℤ_refl id),
    )

-- With memory, `deleteLock` of a registered lock that has no owner succeeds and frees it whatever
-- processes still wait for it, and its identifier is gone.
pub delete_lock-waiters :
    (k : Kernel) (id : ℤ) (lockp : Ptr) (waiters : Option (List Ptr))
    → Registered k.lock_map id lockp
    → k.locks lockp ≡ some (record { owner = none; waiting_q = waiters })
    → fresh k ≢ null
    → (k' : Kernel) × (delete_lock id k ≡ ok (success, k'))
      × (k'.locks lockp ≡ none)
      × (get_lock id k' ≡ ok none)
unfolding delete_lock drop_lock get_lock
delete_lock-waiters k id lockp waiters r e got =
    let (hm', run, gone) = removed-find k.lock_map id lockp r in
    let k₁ : Kernel = record (took k) {
      lock_map = some hm';
      locks = update k.locks lockp (some (record { owner = none; waiting_q = some [] }));
    } in
    (record k₁ { locks = update k₁.locks lockp none }, ground (arith, run), ground arith, gone)

-- `deleteLock` of a registered lock that is held returns ERROR and does not free it, but its
-- identifier is gone.
pub delete_lock-held :
    (k : Kernel) (id : ℤ) (lockp owner : Ptr) (waiters : Option (List Ptr))
    → Registered k.lock_map id lockp
    → k.locks lockp ≡ some (record { owner = some owner; waiting_q = waiters })
    → (k' : Kernel) × (delete_lock id k ≡ ok (error, k'))
      × (k'.locks lockp ≢ none)
      × (get_lock id k' ≡ ok none)
unfolding delete_lock drop_lock get_lock
delete_lock-held k id lockp owner waiters r e =
    let (hm', run, gone) = removed-find k.lock_map id lockp r in
    (
      record (took k) {
        lock_map = some hm';
        locks =
            update k.locks lockp
              (some (record { owner = some owner; waiting_q = Fifo.new (fresh k) }));
      },
      ground (arith, run),
      ground arith,
      gone,
    )

-- A registered condition variable is freed only if no process waits on it: else `deleteCvar`
-- returns ERROR and changes none of its waiters. In both cases its identifier is gone.
pub delete_cvar-outcome :
    (k : Kernel) (id : ℤ) (cvarp : Ptr) (q : List Ptr)
    → Registered k.cvar_map id cvarp
    → k.cvars cvarp ≡ some q
    → (k' : Kernel) × (delete_cvar id k
        ≡ ok (elim (Fifo.peek (some q)) [ none ↦ success | some _ ↦ error ], k'))
      × (k'.cvars cvarp ≡ elim (Fifo.peek (some q)) [ none ↦ none | some _ ↦ some q ])
      × (get_cvar id k' ≡ ok none)
unfolding delete_cvar drop_cvar get_cvar
delete_cvar-outcome k id cvarp [] r e =
    let (hm', run, gone) = removed-find k.cvar_map id cvarp r in
    (
      record k { cvar_map = some hm'; cvars = update k.cvars cvarp none },
      ground (arith, run),
      ground arith,
      gone,
    )
delete_cvar-outcome k id cvarp (p ∷ q) r e =
    let (hm', run, gone) = removed-find k.cvar_map id cvarp r in
    (record k { cvar_map = some hm' }, ground (arith, run), e, gone)

-- A registered pipe is freed only if no process waits for it: else `deletePipe` returns ERROR and
-- the pipe stays as it is. In both cases its identifier is gone.
pub delete_pipe-outcome :
    (k : Kernel) (id : ℤ) (pipep : Ptr) (pipe : Pipe) (q : List Ptr)
    → Registered k.pipe_map id pipep
    → k.pipes pipep ≡ some pipe
    → pipe.waiting_q ≡ some q
    → (k' : Kernel) × (delete_pipe id k
        ≡ ok (elim (Fifo.peek (some q)) [ none ↦ success | some _ ↦ error ], k'))
      × (k'.pipes pipep ≡ elim (Fifo.peek (some q)) [ none ↦ none | some _ ↦ some pipe ])
      × (get_pipe id k' ≡ ok none)
unfolding delete_pipe drop_pipe get_pipe
delete_pipe-outcome k id pipep pipe [] r e w =
    let (hm', run, gone) = removed-find k.pipe_map id pipep r in
    (
      record k { pipe_map = some hm'; pipes = update k.pipes pipep none },
      ground (arith, run),
      ground arith,
      gone,
    )
delete_pipe-outcome k id pipep pipe (p ∷ q) r e w =
    let (hm', run, gone) = removed-find k.pipe_map id pipep r in
    (record k { pipe_map = some hm' }, ground (arith, run), e, gone)
