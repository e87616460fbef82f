-- ===== src/Terminal.antt =====
-- KernelDataStructures/TtyBuffer/TtyBuffer.c and KernelCalls/TtyKernelCalls.c. What TtyReceive, of the
-- hardware library, returns and writes is an argument; TtyTransmit is a record in the state. The
-- terminals' buffers are disjoint parts of one page, so each is a list of bytes of its own.
pub mod Reading
pub mod Waiting
pub mod Writing
mod Tests
use yallnix.Prelude.{
  ℕ, zero, suc, ◌+◌, ◌-◌, Bool, true, false, Option, none, some, List, [], ◌∷◌, ◌++◌, Run, ok,
  fault, ◌>>=◌, deref, Ptr, null, ltb, ◌==◌, if◌then◌else◌, Status, error, success, length, take,
  drop, get_elem?, set,
}
use yallnix.Prelude.Int.{ℤ, pos, negsuc}
use yallnix.Kernel.{
  Kernel, TtyBuf, Resume, tty_read, tty_write, tty_batch, Rc, err, val, Step, Outcome, returned,
  to_user, switched, halted, yields, fresh, took,
}
use yallnix.Scheduler.Tty.{
  is_tty_transmit_available, block_transmitter, unblock_transmitter, wait_transmitter,
  signal_transmitter, block_reader, unblock_reader,
}
use yallnix.KernelCalls.Pipe.{bytes_at}
use yallnix.Hardware.{Hardware}
use yallnix.PageTable.{Pte, Prot}
use yallnix.Brk.{validate_page}
use yallnix.UserMemory.{Tables, is_valid_buffer, prot_read}

-- The buffer of a terminal, if `initBuffers` has made it.
abbrev pub buffer_of : ℕ → Kernel → Run TtyBuf
buffer_of tty k = do entry ← deref (get_elem? k.buffers tty); deref entry

abbrev pub set_buffer : ℕ → TtyBuf → Kernel → Kernel
set_buffer tty b k = record k { buffers = set k.buffers tty (some b) }

-- The loop of `initBuffers` over the terminals, from the state of `malloc` on.
unfoldable pub init_buffers_loop : ℕ → Kernel → Status × List (Option TtyBuf) × Kernel
init_buffers_loop zero k = (success, [], k)
init_buffers_loop (suc n) k =
    let (st, rest, k') = init_buffers_loop n (took k) in
    if fresh k == null
    then (error, [], took k)
    else (st, some (record { line = []; is_line_ready = false }) ∷ rest, k')

-- `initBuffers`, over the table of region 0 with the entry of the page for the buffers. Without a frame
-- it halts: that is ERROR here, on which its caller halts.
unfoldable pub init_buffers : ℕ → ℕ → List Pte → Kernel → Run (Status × (List Pte × Kernel))
init_buffers entry n table k = do
  (st, mem) ← validate_page entry (record { table = table; frames = k.frames })
  let k₁ : Kernel = record k { frames = mem.frames }
  let (made, bufs, k₂) = init_buffers_loop n k₁
  ok (elim st [
    | error ↦ (error, (mem.table, k₁))
    | success ↦ (made, (mem.table, record k₂ { buffers = bufs }))
  ])

-- A line that TtyReceive has read: `lenWithNull` and the bytes at the buffer's base.
unfoldable pub write_buffer : ℕ → ℤ → (ℕ → ℕ) → Kernel → Run (Status × Kernel)
write_buffer tty (pos (suc n)) content k = do
  b ← buffer_of tty k
  let k₁ : Kernel = set_buffer tty (record { line = bytes_at content 0 n; is_line_ready = true }) k
  (st, k₂) ← unblock_reader tty k₁
  ok (success, k₂)
write_buffer tty (pos zero) content k = do
  b ← buffer_of tty k
  ok (success, set_buffer tty (record { line = []; is_line_ready = false }) k)
write_buffer tty (negsuc n) content k = do
  b ← buffer_of tty k
  ok (success, set_buffer tty (record { line = []; is_line_ready = false }) k)

-- What `readBuffer` does once a line is ready.
unfoldable pub take_line : ℕ → TtyBuf → ℕ → ℕ → Kernel → Step
take_line tty b buf len k =
    if ltb len (length b.line)
    then (do
      let k₁ : Kernel =
          set_buffer tty (record b { line = drop len b.line })
            (record k { copied = (k.curr, buf, take len b.line) ∷ k.copied })
      (st, k₂) ← unblock_reader tty k₁
      elim st [ error ↦ yields (returned err) k₂ | success ↦ yields (returned (val len)) k₂ ])
    else yields (returned (val (length b.line))) (
        set_buffer tty (record { line = []; is_line_ready = false })
          (record k { copied = (k.curr, buf, b.line) ∷ k.copied }))

-- The `while` loop and what follows it; a process that is woken runs it again.
unfoldable pub read_buffer : ℕ → ℕ → ℕ → Kernel → Step
read_buffer tty buf len k = do
  b ← buffer_of tty k
  if b.is_line_ready then take_line tty b buf len k else block_reader (tty_read tty buf len) tty k

-- The loop over the batches and what follows it. `f` is at least the number of bytes left. The value of
-- `waitTransmitter` is not checked.
unfoldable pub transmit_loop : ℕ → ℕ → List ℕ → ℕ → Kernel → Step
transmit_loop f tty [] len k = do
  (st, k₁) ← unblock_transmitter tty k
  yields (returned (val len)) k₁
transmit_loop zero tty (byte ∷ bytes) len k = fault
transmit_loop (suc f) tty (byte ∷ bytes) len k = do
  let rest : List ℕ = drop k.line_max (byte ∷ bytes)
  let k₁ : Kernel = record k { transmitted = (tty, take k.line_max (byte ∷ bytes)) ∷ k.transmitted }
  (o, k₂) ← wait_transmitter (tty_batch tty rest len) tty k₁
  elim o [
    | returned rc ↦ transmit_loop f tty rest len k₂
    | to_user ↦ yields to_user k₂
    | switched ↦ yields switched k₂
    | halted ↦ yields halted k₂
  ]

-- The code behind the `while` loop that waits for the terminal.
abbrev pub transmit : ℕ → List ℕ → ℕ → Kernel → Step
transmit tty bytes len k = transmit_loop (length bytes) tty bytes len k

-- The `while` loop that waits for the terminal. The value of `blockTransmitter` is not checked: a failed
-- attempt is made again, `spins` times here.
unfoldable pub write_loop : ℕ → ℕ → List ℕ → Kernel → Step
write_loop zero tty bytes k = do
  free ← is_tty_transmit_available tty k
  if free then transmit tty bytes (length bytes) k else fault
write_loop (suc spins) tty bytes k = do
  free ← is_tty_transmit_available tty k
  if free then transmit tty bytes (length bytes) k else (do
    (o, k₁) ← block_transmitter (tty_write (suc spins) tty bytes) tty k
    elim o [
      | returned rc ↦ write_loop spins tty bytes k₁
      | to_user ↦ yields to_user k₁
      | switched ↦ yields switched k₁
      | halted ↦ yields halted k₁
    ])

-- The page tables in the registers: region 0 is the same for every process.
abbrev pub tables : List Pte → Kernel → Run Tables
tables region0 k = do
  pcb ← deref (k.pcbs k.ptbr1)
  ok (record { region0 = region0; region1 = pcb.r1_table })

-- `src` is the memory of the caller from `buf` on.
unfoldable pub kernel_tty_write : Hardware → List Pte → ℕ → ℕ → ℕ → (ℕ → ℕ) → ℤ → Kernel → Step
kernel_tty_write hw region0 spins tty buf src len k =
    if ltb buf hw.vmem_1_base then yields (returned err) k else elim len [
      | negsuc n ↦ yields (returned err) k
      | pos n ↦ elim n [
        | zero ↦ yields (returned (val 0)) k
        | suc m ↦ do
          t ← tables region0 k
          valid ← is_valid_buffer hw t buf (pos (suc m)) prot_read
          if valid
              then (if fresh k == null
                  then fault
                  else write_loop spins tty (bytes_at src 0 (suc m)) (took k))
              else yields (returned err) k
      ]
    ]

abbrev prot_write : Prot
prot_write = record { read = false; write = true; exec = false }

unfoldable pub kernel_tty_read : Hardware → List Pte → ℕ → ℕ → ℤ → Kernel → Step
kernel_tty_read hw region0 tty buf len k =
    if ltb buf hw.vmem_1_base then yields (returned err) k else elim len [
      | negsuc n ↦ yields (returned err) k
      | pos n ↦ elim n [
        | zero ↦ yields (returned (val 0)) k
        | suc m ↦ do
          t ← tables region0 k
          valid ← is_valid_buffer hw t buf (pos (suc m)) prot_write
          if valid then read_buffer tty buf (suc m) k else yields (returned err) k
      ]
    ]
