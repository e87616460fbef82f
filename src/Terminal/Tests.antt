-- ===== src/Terminal/Tests.antt =====
-- The terminal of Kernel.Sample.
use yallnix.Prelude.{ℕ, ◌≡◌, refl, ok, fault, Run, [], ◌∷◌, success, arith}
use yallnix.Prelude.Int.{pos}
use yallnix.Kernel.{Kernel, returned, switched, val}
use yallnix.Kernel.Sample.{sample}
use yallnix.Kernel.Switch.{switch_between, run_next}
use yallnix.Scheduler.{run_ready}
use yallnix.Scheduler.Tty.{unblock_reader, wait_transmitter}
use yallnix.Terminal.{write_buffer, read_buffer, take_line, transmit_loop}
use yallnix.Terminal.Reading.{Delivered, write_buffer-read_buffer}
use yallnix.Terminal.Writing.{Ends, transmit_loop-Ends}

-- The state that a step ends in.
abbrev left {ℓ} : {A : Type ℓ} → Run (A × Kernel) → Kernel
left (ok r) = r.1
left fault = sample

-- A line of the bytes 0 and 1.
abbrev line : ℕ → ℕ
line i = i

abbrev written : Kernel
written = left (write_buffer 0 (pos 3) line sample)

written-run : write_buffer 0 (pos 3) line sample ≡ ok (success, written)
unfolding write_buffer unblock_reader
written-run = refl

abbrev after_read : Kernel
after_read = left (read_buffer 0 140 1 written)

after_read-run : read_buffer 0 140 1 written ≡ ok (returned (val 1), after_read)
unfolding write_buffer read_buffer take_line unblock_reader
after_read-run = refl

-- A reader who takes one byte of it.
write_buffer-read_buffer_example : Delivered 0 140 1 1 (0 ∷ 1 ∷ []) written after_read
write_buffer-read_buffer_example =
    write_buffer-read_buffer 0 140 1 2 1 line success sample written written after_read written-run
      refl after_read-run

abbrev paused : Kernel
paused = left (transmit_loop 3 0 (7 ∷ 8 ∷ 9 ∷ []) 3 sample)

paused-run : transmit_loop 3 0 (7 ∷ 8 ∷ 9 ∷ []) 3 sample ≡ ok (switched, paused)
unfolding transmit_loop wait_transmitter run_ready switch_between run_next
paused-run = refl

-- Two bytes of three go out before process 2 runs.
transmit_loop-Ends_example : Ends 0 3 (7 ∷ 8 ∷ 9 ∷ []) sample switched paused
transmit_loop-Ends_example =
    transmit_loop-Ends 3 0 3 (7 ∷ 8 ∷ 9 ∷ []) sample paused switched (omega arith) (omega arith)
      paused-run
