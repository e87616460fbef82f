-- ===== src/SyncObjects/Tests.antt =====
-- Locks, condition variables and pipes in the state of Kernel.Sample.
use yallnix.Prelude.{ℕ, ◌≡◌, ◌≢◌, refl, some, none, ok, [], success, arith}
use yallnix.Prelude.Int.{pos}
use yallnix.Set
use yallnix.Set.{find_loop}
use yallnix.Kernel.{Kernel}
use yallnix.Kernel.Sample.{one, one-IsValid, sample}
use yallnix.SyncObjects.{init_lock, get_lock}
use yallnix.SyncObjects.Creation.{HasRoom, init_lock-get_lock}
use yallnix.SyncObjects.Deletion.{Registered}

lock-Registered : Registered sample.lock_map (pos 0) 40
unfolding Set.find find_loop
lock-Registered = record {
  map = one 0 40;
  is = refl;
  valid = one-IsValid 0 40;
  fits = tt;
  found = refl;
}

cvar-Registered : Registered sample.cvar_map (pos 1) 50
unfolding Set.find find_loop
cvar-Registered = record {
  map = one 1 50;
  is = refl;
  valid = one-IsValid 1 50;
  fits = tt;
  found = refl;
}

pipe-Registered : Registered sample.pipe_map (pos 2) 60
unfolding Set.find find_loop
pipe-Registered = record {
  map = one 2 60;
  is = refl;
  valid = one-IsValid 2 60;
  fits = tt;
  found = refl;
}

lock-HasRoom : HasRoom sample.lock_map 3
unfolding Set.find find_loop
lock-HasRoom = record { map = one 0 40; is = refl; valid = one-IsValid 0 40; unused = refl }

init_lock-get_lock_example :
    (k' : Kernel) × (init_lock sample ≡ ok (success, some 3, k'))
    × (k'.next_sync_id ≡ 4)
    × (get_lock (pos 3) k' ≡ ok (some 100))
    × (k'.locks 100 ≡ some (record { owner = none; waiting_q = some [] }))
    × ((j : ℕ) → j ≢ 3 → get_lock (pos j) k' ≡ get_lock (pos j) sample)
init_lock-get_lock_example =
    init_lock-get_lock sample lock-HasRoom (omega arith) (omega arith) (omega arith)
