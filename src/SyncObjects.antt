-- ===== src/SyncObjects.antt =====
-- KernelDataStructures/SyncObjects: Lock.c, CVar.c and Pipe.c. The three maps hold pointers to the
-- objects, and the objects of all three kinds share one counter of identifiers.
pub mod Deletion
pub mod Creation
pub mod Maps
mod Tests
use yallnix.Prelude.{
  ℕ, suc, Bool, true, false, ◌||◌, Option, none, some, List, [], ◌∷◌, Run, ok, fault, ◌>>=◌, deref,
  Ptr, null, not, ◌==◌, if◌then◌else◌, Status, error, success,
}
use yallnix.Prelude.Int.{ℤ, pos}
use yallnix.HashMap.{HashMap}
use yallnix.HashMap
use yallnix.Fifo
use yallnix.Kernel.{Kernel, Lock, Pipe, fresh, took, update}

-- The status, what is written to the caller's identifier, and the state.
abbrev pub Created : Type 0
Created = Run (Status × Option ℕ × Kernel)

abbrev pub fails : Kernel → Created
fails k = ok (error, none, k)

-- `nextSyncId++`.
abbrev pub next_id : Kernel → Kernel
next_id k = record k { next_sync_id = suc k.next_sync_id }

-- HashMap_insert(map, id, object), with the answer of `malloc` for its node.
abbrev pub register : ℕ → Ptr → Kernel → Option (HashMap Ptr) → Run (Status × Option (HashMap Ptr))
register id object k m = HashMap.insert (not (fresh k == null)) (pos id) (some object) m

unfoldable pub init_lock : Kernel → Created
init_lock k =
    let lockp = fresh k in
    let k₁ : Kernel = took k in
    let k₂ : Kernel = took k₁ in
    if lockp == null then fails k₁ else if fresh k₁ == null then fails k₂ else do
      let k₃ : Kernel = next_id (record k₂ {
        locks = update k.locks lockp (some (record { owner = none; waiting_q = some [] }));
      })
      (st, m) ← register k.next_sync_id lockp k₃ k₃.lock_map
      ok (st, some k.next_sync_id, record (took k₃) { lock_map = m })

unfoldable pub get_lock : ℤ → Kernel → Run (Option Ptr)
get_lock id k = HashMap.find id k.lock_map

-- A pointer is not NULL.
abbrev pub is_some {ℓ} : {A : Type ℓ} → Option A → Bool
is_some none = false
is_some (some a) = true

-- The part of `deleteLock` behind the first test: the queue of waiters is made anew before it is read.
unfoldable pub drop_lock : Ptr → Kernel → Run (Status × Kernel)
drop_lock lockp k = do
  lock ← deref (k.locks lockp)
  let q : Option (List Ptr) = Fifo.new (fresh k)
  let k₁ : Kernel = record (took k) {
    locks = update k.locks lockp (some (record lock { waiting_q = q }));
  }
  elim q [
    | none ↦ ok (error, k₁)
    | some waiters ↦
        if is_some lock.owner || is_some (Fifo.peek (some waiters))
        then ok (error, k₁)
        else ok (success, record k₁ { locks = update k₁.locks lockp none })
  ]

unfoldable pub delete_lock : ℤ → Kernel → Run (Status × Kernel)
delete_lock id k = do
  (found, m) ← HashMap.remove id k.lock_map
  let k₁ : Kernel = record k { lock_map = m }
  elim found [ none ↦ ok (error, k₁) | some lockp ↦ drop_lock lockp k₁ ]

unfoldable pub init_cvar : Kernel → Created
init_cvar k =
    let cvarp = fresh k in
    let k₁ : Kernel = took k in
    if cvarp == null then fails k₁ else do
      let k₂ : Kernel = next_id (record k₁ { cvars = update k.cvars cvarp (some []) })
      (st, m) ← register k.next_sync_id cvarp k₂ k₂.cvar_map
      ok (st, some k.next_sync_id, record (took k₂) { cvar_map = m })

unfoldable pub get_cvar : ℤ → Kernel → Run (Option Ptr)
get_cvar id k = HashMap.find id k.cvar_map

unfoldable pub drop_cvar : Ptr → Kernel → Run (Status × Kernel)
drop_cvar cvarp k = do
  q ← deref (k.cvars cvarp)
  if is_some (Fifo.peek (some q))
      then ok (error, k)
      else ok (success, record k { cvars = update k.cvars cvarp none })

unfoldable pub delete_cvar : ℤ → Kernel → Run (Status × Kernel)
delete_cvar id k = do
  (found, m) ← HashMap.remove id k.cvar_map
  let k₁ : Kernel = record k { cvar_map = m }
  elim found [ none ↦ ok (error, k₁) | some cvarp ↦ drop_cvar cvarp k₁ ]

unfoldable pub init_pipe : Kernel → Created
init_pipe k =
    let pipep = fresh k in
    let k₁ : Kernel = took k in
    let k₂ : Kernel = took k₁ in
    let k₃ : Kernel = took k₂ in
    if pipep == null
    then fails k₁
    else if fresh k₁ == null
    then fails k₂
    else if fresh k₂ == null
    then fails k₃
    else do
      let k₄ : Kernel = next_id (record k₃ {
        pipes = update k.pipes pipep (some (record { buffer = []; waiting_q = some [] }));
      })
      (st, m) ← register k.next_sync_id pipep k₄ k₄.pipe_map
      ok (st, some k.next_sync_id, record (took k₄) { pipe_map = m })

unfoldable pub get_pipe : ℤ → Kernel → Run (Option Ptr)
get_pipe id k = HashMap.find id k.pipe_map

unfoldable pub drop_pipe : Ptr → Kernel → Run (Status × Kernel)
drop_pipe pipep k = do
  pipe ← deref (k.pipes pipep)
  elim pipe.waiting_q [
    | none ↦ ok (error, k)
    | some q ↦
        if is_some (Fifo.peek (some q))
        then ok (error, k)
        else ok (success, record k { pipes = update k.pipes pipep none })
  ]

unfoldable pub delete_pipe : ℤ → Kernel → Run (Status × Kernel)
delete_pipe id k = do
  (found, m) ← HashMap.remove id k.pipe_map
  let k₁ : Kernel = record k { pipe_map = m }
  elim found [ none ↦ ok (error, k₁) | some pipep ↦ drop_pipe pipep k₁ ]
