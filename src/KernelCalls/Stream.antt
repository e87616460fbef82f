-- ===== src/KernelCalls/Stream.antt =====
-- KernelCalls/PipeKernelCalls.c: the bytes that go through a pipe.
use yallnix.Prelude.{
  ℕ, zero, suc, ◌+◌, ◌^◌, ◌<◌, ◌≤◌, ◌≡◌, ◌≢◌, refl, ap, Option, true, some, List, [], ◌∷◌, ◌++◌, ok,
  Ptr, null, arith, length, take, drop,
}
use yallnix.Prelude.Int.{ℤ, pos}
use yallnix.HashMap.Laws.{find-view}
use yallnix.Hardware.{Hardware}
use yallnix.Kernel.{Kernel, Pcb, Pipe, err, val, returned, fresh, took}
use yallnix.SyncObjects.{get_pipe}
use yallnix.SyncObjects.Deletion.{Registered}
use yallnix.KernelCalls.Lock.{wake_waiter}
use yallnix.KernelCalls.Pipe.{
  set_pipe, bytes_at, user_bytes, all_writable, copy_out, append_bytes, kernel_pipe_write,
  take_bytes, read_loop, queue_reader, kernel_pipe_read,
}

get_pipe-Registered :
    (k : Kernel) (id : ℤ) (pipep : Ptr)
    → Registered k.pipe_map id pipep
    → get_pipe id k ≡ ok (some pipep)
unfolding get_pipe
get_pipe-Registered k id pipep r = ground (arith, r.is, find-view id r.map r.valid r.fits, r.found)

pub length-bytes_at : (src : ℕ → ℕ) (i n : ℕ) → length (bytes_at src i n) ≡ n
length-bytes_at src i zero = refl
length-bytes_at src i (suc n) = ap suc (length-bytes_at src (i + 1) n)

-- What `memmove` reads where memory holds `content`.
user_bytes-bytes_at :
    (src : ℕ → Option ℕ) (content : ℕ → ℕ) (i n : ℕ)
    → ((j : ℕ) → i ≤ j → j < i + n → src j ≡ some (content j))
    → user_bytes src i n ≡ ok (bytes_at content i n)
unfolding user_bytes
user_bytes-bytes_at src content i zero h = refl
user_bytes-bytes_at src content i (suc n) h =
    let rest =
      user_bytes-bytes_at src content (i + 1) n (λ j le lt. h j (omega arith) (omega arith)) in
    rw (h i (omega arith) (omega arith), rest) refl

append_bytes-fits :
    (max_bytes len : ℕ) (pipep : Ptr) (written bytes : List ℕ) (src : ℕ → Option ℕ) (k : Kernel)
    → k.pipes pipep ≡ some (record { buffer = written; waiting_q = some [] })
    → length written + len ≤ max_bytes
    → max_bytes < 2 ^ 31
    → user_bytes src 0 len ≡ ok bytes
    → append_bytes max_bytes pipep src len k
      ≡ ok (
        returned (val len),
        set_pipe pipep (record { buffer = written ++ bytes; waiting_q = some [] }) k,
      )
unfolding append_bytes wake_waiter
append_bytes-fits max_bytes len pipep written bytes src k e fits small reads = ground arith

append_bytes-full :
    (max_bytes len : ℕ) (pipep : Ptr) (pipe : Pipe) (src : ℕ → Option ℕ) (k : Kernel)
    → k.pipes pipep ≡ some pipe
    → max_bytes < length pipe.buffer + len
    → length pipe.buffer + len < 2 ^ 31
    → append_bytes max_bytes pipep src len k ≡ ok (returned err, k)
unfolding append_bytes
append_bytes-full max_bytes len pipep pipe src k e full small = ground arith

-- A write of a positive number of bytes that fit into a registered pipe, with no process waiting,
-- a limit that is an `int`, and the bytes mapped in the memory of the caller: it returns that
-- number, and only appends those bytes to the pipe.
pub kernel_pipe_write-appends :
    (max_bytes n : ℕ) (id : ℤ) (src : ℕ → Option ℕ) (content : ℕ → ℕ) (k : Kernel) (pipep : Ptr)
    (written : List ℕ)
    → Registered k.pipe_map id pipep
    → k.pipes pipep ≡ some (record { buffer = written; waiting_q = some [] })
    → length written + suc n ≤ max_bytes
    → max_bytes < 2 ^ 31
    → ((i : ℕ) → i < suc n → src i ≡ some (content i))
    → kernel_pipe_write max_bytes id src (pos (suc n)) k
      ≡ ok (
        returned (val (suc n)),
        set_pipe pipep
            (record { buffer = written ++ bytes_at content 0 (suc n); waiting_q = some [] })
            k,
      )
unfolding kernel_pipe_write
kernel_pipe_write-appends max_bytes n id src content k pipep written r e fits small mapped =
    let reads = user_bytes-bytes_at src content 0 (suc n) (λ j le lt. mapped j (omega arith)) in
    let run =
      append_bytes-fits max_bytes (suc n) pipep written (bytes_at content 0 (suc n)) src k e fits
        small reads in
    ground (arith, get_pipe-Registered k id pipep r, run)

-- A write that does not fit into a registered pipe, while the sum of the lengths is an `int`,
-- returns ERROR and changes nothing, wherever the bytes are.
pub kernel_pipe_write-full :
    (max_bytes n : ℕ) (id : ℤ) (src : ℕ → Option ℕ) (k : Kernel) (pipep : Ptr) (pipe : Pipe)
    → Registered k.pipe_map id pipep
    → k.pipes pipep ≡ some pipe
    → max_bytes < length pipe.buffer + suc n
    → length pipe.buffer + suc n < 2 ^ 31
    → kernel_pipe_write max_bytes id src (pos (suc n)) k ≡ ok (returned err, k)
unfolding kernel_pipe_write
kernel_pipe_write-full max_bytes n id src k pipep pipe r e full small =
    let run = append_bytes-full max_bytes (suc n) pipep pipe src k e full small in
    ground (arith, get_pipe-Registered k id pipep r, run)

-- The bytes at an address of the process whose region 1 the MMU uses can be written.
pub record CanStore (hw : Hardware) (k : Kernel) (buf n : ℕ) : Type 0 where
  pub owner : Pcb
  pub alive : k.pcbs k.ptbr1 ≡ some owner
  pub all : all_writable hw owner.r1_table buf n ≡ true

take_bytes-alone :
    (hw : Hardware) (pipep p : Ptr) (written : List ℕ) (buf len : ℕ) (k : Kernel)
    → CanStore hw k buf len
    → take_bytes hw pipep (record { buffer = written; waiting_q = some (p ∷ []) }) buf len k
      ≡ ok (
        returned (val len),
        set_pipe pipep
            (record { buffer = drop len written; waiting_q = some [] })
            (record k { copied = (k.curr, buf, take len written) ∷ k.copied }),
      )
unfolding take_bytes copy_out wake_waiter
take_bytes-alone hw pipep p written buf len k c = ground (arith, c.alive, c.all)

read_loop-enough :
    (hw : Hardware) (pipep p : Ptr) (written : List ℕ) (buf len : ℕ) (k : Kernel)
    → k.pipes pipep ≡ some (record { buffer = written; waiting_q = some (p ∷ []) })
    → len ≤ length written
    → CanStore hw k buf len
    → read_loop hw pipep buf len k
      ≡ ok (
        returned (val len),
        set_pipe pipep
            (record { buffer = drop len written; waiting_q = some [] })
            (record k { copied = (k.curr, buf, take len written) ∷ k.copied }),
      )
unfolding read_loop
read_loop-enough hw pipep p written buf len k e there c =
    ground (arith, take_bytes-alone hw pipep p written buf len k c)

-- A read of a positive number of bytes that are in a registered pipe, with no process waiting,
-- memory for a queue node, and the bytes at the address of the caller on pages of its region 1
-- that are mapped and may be written: it returns that number, the oldest bytes have been copied to
-- that address, and the others are left in the pipe.
pub kernel_pipe_read-oldest :
    (hw : Hardware) (n buf : ℕ) (id : ℤ) (k : Kernel) (pipep : Ptr) (written : List ℕ)
    → Registered k.pipe_map id pipep
    → k.pipes pipep ≡ some (record { buffer = written; waiting_q = some [] })
    → suc n ≤ length written
    → fresh k ≢ null
    → CanStore hw k buf (suc n)
    → (k' : Kernel) × (kernel_pipe_read hw id buf (pos (suc n)) k ≡ ok (returned (val (suc n)), k'))
      × (k'.copied ≡ (k.curr, buf, take (suc n) written) ∷ k.copied)
      × (k'.pipes pipep ≡ some (record { buffer = drop (suc n) written; waiting_q = some [] }))
unfolding kernel_pipe_read queue_reader
kernel_pipe_read-oldest hw n buf id k pipep written r e there got c =
    let k₁ : Kernel =
      set_pipe pipep (record { buffer = written; waiting_q = some (k.curr ∷ []) }) (took k) in
    let run =
      read_loop-enough hw pipep k.curr written buf (suc n) k₁ (ground arith) there
        (record { owner = c.owner; alive = c.alive; all = c.all }) in
    (
      set_pipe pipep (record { buffer = drop (suc n) written; waiting_q = some [] })
          (record k₁ { copied = (k.curr, buf, take (suc n) written) ∷ k.copied }),
      ground (arith, get_pipe-Registered k id pipep r, run),
      refl,
      ground arith,
    )
