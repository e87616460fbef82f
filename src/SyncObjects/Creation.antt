-- ===== src/SyncObjects/Creation.antt =====
-- `initLock` of Lock.c, and `getLock` behind it.
use yallnix.Prelude.{ℕ, suc, ◌≡◌, ◌≢◌, refl, Option, none, some, [], ok, Ptr, null, success, arith}
use yallnix.Prelude.Int.{pos}
use yallnix.HashMap.{HashMap}
use yallnix.HashMap
use yallnix.HashMap.Buckets.{IsValid}
use yallnix.HashMap.Laws.{view, find-view, insert-view}
use yallnix.Kernel.{Kernel, fresh, took, update}
use yallnix.SyncObjects.{init_lock, get_lock, next_id}

-- The map has no object under the next identifier.
pub record HasRoom (m : Option (HashMap Ptr)) (id : ℕ) : Type 0 where
  pub map : HashMap Ptr
  pub is : m ≡ some map
  pub valid : IsValid map
  pub unused : view map (pos id) ≡ none

-- With memory and a valid map that does not have the next identifier, `initLock` writes that
-- identifier, under which `getLock` then finds a lock that nobody owns or waits for; the counter
-- moves on, and every other identifier keeps its lock.
pub init_lock-get_lock :
    (k : Kernel)
    → HasRoom k.lock_map k.next_sync_id
    → k.mallocs 0 ≢ null
    → k.mallocs 1 ≢ null
    → k.mallocs 2 ≢ null
    → (k' : Kernel) × (init_lock k ≡ ok (success, some k.next_sync_id, k'))
      × (k'.next_sync_id ≡ suc k.next_sync_id)
      × (get_lock (pos k.next_sync_id) k' ≡ ok (some (fresh k)))
      × (k'.locks (fresh k) ≡ some (record { owner = none; waiting_q = some [] }))
      × ((j : ℕ) → j ≢ k.next_sync_id → get_lock (pos j) k' ≡ get_lock (pos j) k)
unfolding init_lock get_lock
init_lock-get_lock k r m0 m1 m2 =
    let free : HashMap.find (pos k.next_sync_id) (some r.map) ≡ ok none =
      ground (arith, find-view (pos k.next_sync_id) r.map r.valid tt, r.unused) in
    let (hm', run, v', size, gains) =
      insert-view (pos k.next_sync_id) (fresh k) r.map r.valid tt free in
    let k' : Kernel = record (next_id (took (took (took k)))) {
      locks = update k.locks (fresh k) (some (record { owner = none; waiting_q = some [] }));
      lock_map = some hm';
    } in
    (
      k',
      ground (arith, run, r.is),
      refl,
      ground (arith, find-view (pos k.next_sync_id) hm' v' tt, gains (pos k.next_sync_id)),
      ground arith,
      λ j ne. ground (
        arith,
        find-view (pos j) hm' v' tt,
        find-view (pos j) r.map r.valid tt,
        gains (pos j),
        r.is,
      ),
    )
