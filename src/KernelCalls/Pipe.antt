-- ===== src/KernelCalls/Pipe.antt =====
-- KernelCalls/PipeKernelCalls.c. `src` is user memory from the address `buf` on, where it is mapped, and `max_bytes` is
-- PIPE_MAX_BYTES, which hardware.h fixes. A sum that overflows `int` is a fault.
use yallnix.Prelude.{
  ℕ, zero, suc, ◌+◌, ◌-◌, ◌^◌, Bool, true, false, ◌&&◌, get_elem?, ok, Option, none, some, List, [],
  ◌∷◌, ◌++◌, Run, fault, ◌>>=◌, deref, Ptr, ltb, leb, if◌then◌else◌, Status, error, success, length,
  take, drop,
}
use yallnix.Prelude.Int.{ℤ, pos, negsuc}
use yallnix.Fifo
use yallnix.Hardware.{Hardware, page_of, user_base_vpn}
use yallnix.PageTable.{Pte}
use yallnix.Kernel.{
  Kernel, Pipe, pipe_head, pipe_more, err, val, Step, returned, yields, fresh, took, update,
}
use yallnix.Scheduler.{block_process}
use yallnix.SyncObjects.{get_pipe}
use yallnix.KernelCalls.Lock.{wake_waiter, owns}

abbrev pub set_pipe : Ptr → Pipe → Kernel → Kernel
set_pipe pipep pipe k = record k { pipes = update k.pipes pipep (some pipe) }

-- The first `n` bytes from an offset on.
abbrev pub bytes_at : (ℕ → ℕ) → ℕ → ℕ → List ℕ
bytes_at src i zero = []
bytes_at src i (suc n) = src i ∷ bytes_at src (i + 1) n

-- What `memmove` reads from user memory; where that is not mapped it is a fault.
unfoldable pub user_bytes : (ℕ → Option ℕ) → ℕ → ℕ → Run (List ℕ)
user_bytes src i zero = ok []
user_bytes src i (suc n) = do
  byte ← deref (src i)
  bytes ← user_bytes src (i + 1) n
  ok (byte ∷ bytes)

abbrev may_write : Option Pte → Bool
may_write none = false
may_write (some e) = e.valid && e.prot.write

-- The address is on a page of region 1 that is mapped and may be written.
abbrev pub writable : Hardware → List Pte → ℕ → Bool
writable hw table addr =
    leb hw.vmem_1_base addr && may_write (get_elem? table (page_of hw addr - user_base_vpn hw))

unfoldable pub all_writable : Hardware → List Pte → ℕ → ℕ → Bool
all_writable hw table addr zero = true
all_writable hw table addr (suc n) = writable hw table addr && all_writable hw table (addr + 1) n

-- `memmove` to the address `buf`, which nothing tests, in the region 1 that the MMU uses. Where a byte
-- of it cannot be written it is a fault. An address in the kernel's own memory is one too here: the
-- machine would overwrite what is there.
unfoldable pub copy_out : Hardware → ℕ → ℕ → List ℕ → Kernel → Run Kernel
copy_out hw buf len bytes k = do
  owner ← deref (k.pcbs k.ptbr1)
  if all_writable hw owner.r1_table buf len
      then ok (record k { copied = (k.curr, buf, bytes) ∷ k.copied })
      else fault

-- The value of a call that has woken the next waiter, or failed to.
abbrev pub value : ℕ → Run (Status × Kernel) → Step
value n r = do
  (st, k) ← r
  elim st [ error ↦ yields (returned err) k | success ↦ yields (returned (val n)) k ]

-- The read itself: the process leaves the queue, and the bytes the buffer.
unfoldable pub take_bytes : Hardware → Ptr → Pipe → ℕ → ℕ → Kernel → Step
take_bytes hw pipep pipe buf len k =
    let r : Option Ptr × Option (List Ptr) = Fifo.deq pipe.waiting_q in
    elim r.0 [
      | none ↦ yields (returned err) k
      | some _ ↦ do
        copied ← copy_out hw buf len (take len pipe.buffer) k
        let k₁ : Kernel =
            set_pipe pipep (record { buffer = drop len pipe.buffer; waiting_q = r.1 }) copied
        if ltb 0 (length pipe.buffer - len)
            then value len (wake_waiter (Fifo.peek r.1) k₁)
            else yields (returned (val len)) k₁
    ]

-- The `while` loop; a process that is woken runs it again.
unfoldable pub read_loop : Hardware → Ptr → ℕ → ℕ → Kernel → Step
read_loop hw pipep buf len k = do
  pipe ← deref (k.pipes pipep)
  if ltb (length pipe.buffer) len
      then block_process (pipe_more pipep buf len) k
      else take_bytes hw pipep pipe buf len k

-- The call behind `getPipe`, with a positive length.
unfoldable pub queue_reader : Hardware → Ptr → ℕ → ℕ → Kernel → Step
queue_reader hw pipep buf len k = do
  pipe ← deref (k.pipes pipep)
  let r : Status × Option (List Ptr) = Fifo.enq (fresh k) k.curr pipe.waiting_q
  let k₁ : Kernel = set_pipe pipep (record pipe { waiting_q = r.1 }) (took k)
  elim r.0 [
    | error ↦ yields (returned err) k₁
    | success ↦
        if owns k.curr (Fifo.peek r.1)
        then read_loop hw pipep buf len k₁
        else block_process (pipe_head pipep buf len) k₁
  ]

unfoldable pub kernel_pipe_read : Hardware → ℤ → ℕ → ℤ → Kernel → Step
kernel_pipe_read hw id buf (negsuc n) k = yields (returned err) k
kernel_pipe_read hw id buf (pos zero) k = yields (returned (val 0)) k
kernel_pipe_read hw id buf (pos (suc n)) k = do
  found ← get_pipe id k
  elim found [ none ↦ yields (returned err) k | some pipep ↦ queue_reader hw pipep buf (suc n) k ]

-- The call behind `getPipe`, with a positive length.
unfoldable pub append_bytes : ℕ → Ptr → (ℕ → Option ℕ) → ℕ → Kernel → Step
append_bytes max_bytes pipep src len k = do
  pipe ← deref (k.pipes pipep)
  let n = length pipe.buffer + len
  if leb (2 ^ 31) n then fault else if ltb max_bytes n then yields (returned err) k else (do
    bytes ← user_bytes src 0 len
    let k₁ : Kernel = set_pipe pipep (record pipe { buffer = pipe.buffer ++ bytes }) k
    value len (wake_waiter (Fifo.peek pipe.waiting_q) k₁))

unfoldable pub kernel_pipe_write : ℕ → ℤ → (ℕ → Option ℕ) → ℤ → Kernel → Step
kernel_pipe_write max_bytes id src (negsuc n) k = yields (returned err) k
kernel_pipe_write max_bytes id src (pos zero) k = yields (returned (val 0)) k
kernel_pipe_write max_bytes id src (pos (suc n)) k = do
  found ← get_pipe id k
  elim found [
    | none ↦ yields (returned err) k
    | some pipep ↦ append_bytes max_bytes pipep src (suc n) k
  ]
