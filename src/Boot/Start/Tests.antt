-- ===== src/Boot/Start/Tests.antt =====
-- A boot of the machine of Brk.Sample, with sixteen frames and one terminal.
use yallnix.Prelude.{◌≡◌, ◌≤◌, refl, true, none, some, [], ◌∷◌, ok, fault, arith, null}
use yallnix.HashMap
use yallnix.Kernel.{Kernel, Step, trap, switched}
use yallnix.Kernel.Switch.{switch_between, run_next}
use yallnix.Scheduler.{kick_process, run_ready}
use yallnix.Kernel.Sample.{sample}
use yallnix.Brk.Sample.{machine}
use yallnix.FrameList.{init_frame_list}
use yallnix.PageTable.{initialize_region_page_table}
use yallnix.Brk.{validate_page, validate_pages}
use yallnix.Terminal.{init_buffers, init_buffers_loop}
use yallnix.SyncObjects.Maps.{init_lock_map, init_cvar_map, init_pipe_map}
use yallnix.Scheduler.Start.{
  init_scheduler, init_blocked, init_sleeping, init_terminals, init_queues, init_init_process,
}
use yallnix.Scheduler.Creation.{init_process, init_pcb, init_stack, take_frames}
use yallnix.Boot.{boot_table, boot_prot, set_kernel_data}
use yallnix.Loading.{
  load_idle, load_program, load_pages, clear_pages, map_pages, protect_pages, finish_load,
}
use yallnix.Scheduler.Places.{places}
use yallnix.Scheduler.Runs.{begin, next, kicks}
use yallnix.Boot.Halting.{Boot}
use yallnix.Boot.Start.Vector.{interrupt_vector, install, install_rest}
use yallnix.Boot.Start.{
  Given, Machine, new_table, start_memory, start_objects, start_idle, start_init, start_contexts,
  kernel_start,
}
use yallnix.Boot.Start.Order.{Started, AllDistinct, kernel_start-Started, kernel_start-Apart}

abbrev given : Given
given = record {
  hw = machine;
  constants = record { pointer = 4; post_null = 0; frame = 16 };
  numbers = record {
    kernel = 0;
    clock = 1;
    illegal = 2;
    memory = 3;
    math = 4;
    tty_receive = 5;
    tty_transmit = 6;
    disk = 7;
    vector_size = 16;
  };
  terminals = 1;
  stack_pages = 2;
  pmem_size = 256;
  kernel_data = set_kernel_data 32 48;
  frames_brk = 48;
  table_brk = 48;
  garbage = 0 ∷ 0 ∷ [];
  do_idle = 64;
  file = record {
    is_open = true;
    info =
        some (record {
          entry = 128;
          t_vaddr = 128;
          t_npg = 1;
          id_vaddr = 144;
          id_npg = 1;
          ud_npg = 0;
        });
    has_buffer = true;
    text_read = true;
    data_read = true;
  };
  cmd_args = [];
}

-- The static memory of the kernel before it starts.
abbrev blank : Kernel
blank = record sample {
  curr = null;
  pcbs = λ p. none;
  ready_q = none;
  blocked = none;
  sleeping = none;
}

abbrev halted : Machine
halted = record {
  vector = [];
  registers = record { ptbr0 = 0; ptlr0 = 0; ptbr1 = 0; ptlr1 = 0 };
  region0 = [];
  kernel = blank;
  sp = 0;
  pc = 0;
}

abbrev left : Boot Machine → Machine
left fault = halted
left (ok none) = halted
left (ok (some m)) = m

booted : Machine
booted = left (kernel_start given blank)

booted-run : kernel_start given blank ≡ ok (some booted)
unfolding set_kernel_data kernel_start start_memory start_objects start_idle start_init
    start_contexts booted interrupt_vector install install_rest new_table
    initialize_region_page_table init_frame_list boot_table boot_prot init_buffers init_buffers_loop
    validate_page validate_pages init_lock_map init_cvar_map init_pipe_map HashMap.new
    init_scheduler init_blocked init_sleeping init_terminals init_queues init_process init_pcb
    init_stack take_frames load_idle init_init_process load_program load_pages clear_pages map_pages
    protect_pages finish_load
booted-run = refl

distinct : AllDistinct blank
distinct i j got e = omega (arith, e)

kernel_start-Started_example : Started given booted
kernel_start-Started_example =
    kernel_start-Started given blank booted (λ p. refl) distinct (omega arith) booted-run

-- Process 1 gives the processor up, and "idle" runs.
abbrev after : Step → Kernel
after fault = blank
after (ok (o, k)) = k

kicked : Kernel
kicked = after (kick_process trap booted.kernel)

kicked-run : kick_process trap booted.kernel ≡ ok (switched, kicked)
unfolding kicked kick_process run_ready switch_between run_next set_kernel_data kernel_start
    start_memory start_objects start_idle start_init start_contexts booted interrupt_vector install
    install_rest new_table initialize_region_page_table init_frame_list boot_table boot_prot
    init_buffers init_buffers_loop validate_page validate_pages init_lock_map init_cvar_map
    init_pipe_map HashMap.new init_scheduler init_blocked init_sleeping init_terminals init_queues
    init_process init_pcb init_stack take_frames load_idle init_init_process load_program load_pages
    clear_pages map_pages protect_pages finish_load
kicked-run = refl

kernel_start-Apart_example : places 206 kicked ≤ 1
kernel_start-Apart_example =
    kernel_start-Apart given blank booted (λ p. refl) distinct (omega arith) kicked booted-run
      (next begin (kicks trap booted.kernel kicked kicked-run)) 206
