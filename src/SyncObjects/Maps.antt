-- ===== src/SyncObjects/Maps.antt =====
-- `initLockMap`, `initCvarMap` and `initPipeMap` of Lock.c, CVar.c and Pipe.c.
use yallnix.Prelude.{◌+◌, Option, none, some, Run, ok, ◌>>=◌, Ptr, Status, error, success}
use yallnix.HashMap.{HashMap}
use yallnix.HashMap
use yallnix.Kernel.{Kernel}
use yallnix.Scheduler.Creation.{answers, took_many}

-- NULL is ERROR.
abbrev pub made : Option (HashMap Ptr) → Status
made none = error
made (some hm) = success

-- A map has 22 allocations: its own, its array's, and those of its twenty buckets.
unfoldable pub init_lock_map : Kernel → Run (Status × Kernel)
init_lock_map k = do
  m ← HashMap.new 20 (answers k 0) (answers k 1) (λ i. answers k (2 + i))
  ok (made m, record (took_many 22 k) { lock_map = m })

unfoldable pub init_cvar_map : Kernel → Run (Status × Kernel)
init_cvar_map k = do
  m ← HashMap.new 20 (answers k 0) (answers k 1) (λ i. answers k (2 + i))
  ok (made m, record (took_many 22 k) { cvar_map = m })

unfoldable pub init_pipe_map : Kernel → Run (Status × Kernel)
init_pipe_map k = do
  m ← HashMap.new 20 (answers k 0) (answers k 1) (λ i. answers k (2 + i))
  ok (made m, record (took_many 22 k) { pipe_map = m })
