-- ===== src/Boot/Start.antt =====
-- KernelStart of Kernel.c: the order in which it calls the modules of the kernel, and where it halts. It
-- ends with KernelContextSwitch, of the hardware library, which saves the context that every new process
-- starts in: `starter`.
pub mod Vector
pub mod First
pub mod Born
pub mod Idle
pub mod Quiet
pub mod Buffers
pub mod Queues
pub mod Parts
pub mod Order
mod Tests
use yallnix.Prelude.{
  ℕ, ◌+◌, ◌-◌, ◌/◌, Bool, Option, none, some, List, [], ◌∷◌, map, Run, ok, fault, deref, Ptr,
  Status, error, success, if◌then◌else◌, take, drop,
}
use yallnix.Hardware.{Hardware, page_size, page_of}
use yallnix.FrameList.{Frames, init_frame_list}
use yallnix.PageTable.{Pte, initialize_region_page_table}
use yallnix.Kernel.{Kernel, Pcb, set_pcb, took}
use yallnix.Scheduler.Creation.{answers, took_many, init_process}
use yallnix.Scheduler.Start.{init_scheduler, init_init_process}
use yallnix.SyncObjects.Maps.{init_lock_map, init_cvar_map, init_pipe_map}
use yallnix.Terminal.{init_buffers}
use yallnix.Loading.{Constants, File, Process, LoadStatus, loaded, load_program, load_idle}
use yallnix.KernelCalls.Exec.{image_of}
use yallnix.Boot.{KernelData, boot_table}
use yallnix.Boot.Halting.{Boot, ◌>>=◌, goes, runs, must, need, is_made}
use yallnix.Boot.Start.Vector.{Numbers, Handler, interrupt_vector}

-- The machine and the kernel that is started on it: the constants, the bounds of the kernel's data, the
-- break when the frame list and when the table of region 0 is filled (malloc may raise it in between), what the memory
-- of a new PCB holds, the address of DoIdle, and the program with the lengths of `cmd_args`.
pub record Given : Type 0 where
  pub hw : Hardware
  pub constants : Constants
  pub numbers : Numbers
  pub terminals : ℕ
  pub stack_pages : ℕ
  pub pmem_size : ℕ
  pub kernel_data : KernelData
  pub frames_brk : ℕ
  pub table_brk : ℕ
  pub garbage : List ℕ
  pub do_idle : ℕ
  pub file : File
  pub cmd_args : List ℕ

-- The registers of the MMU, by the addresses of the two tables.
pub record Registers : Type 0 where
  pub ptbr0 : Ptr
  pub ptlr0 : ℕ
  pub ptbr1 : Ptr
  pub ptlr1 : ℕ

-- What KernelStart returns with: `sp` and `pc` are those of the first process.
pub record Machine : Type 0 where
  pub vector : List (Option Handler)
  pub registers : Registers
  pub region0 : List Pte
  pub kernel : Kernel
  pub sp : ℕ
  pub pc : ℕ

-- `initializeRegionPageTable(…) == ERROR`.
unfoldable pub new_table : Hardware → Kernel → Boot (List Pte × Kernel)
new_table hw k = elim (initialize_region_page_table hw (answers k 0)).1 [
  | none ↦ ok none
  | some table ↦ goes (table, took k)
]

-- The rounds of the loop over the addresses of region 0.
abbrev pub region0_pages : Hardware → ℕ
region0_pages hw = (hw.vmem_0_limit - hw.vmem_0_base + (page_size hw - 1)) / page_size hw

-- `r0StackBasePtep` and `tempPtep - TOTAL_READ_BUFFER_PAGES`, as entries of the table.
abbrev pub stack_entry : Hardware → ℕ
stack_entry hw = page_of hw hw.kernel_stack_base - page_of hw hw.vmem_0_base

abbrev pub buffers_entry : Hardware → ℕ
buffers_entry hw = stack_entry hw - 2

-- Both tables and the frame list; the frames of the kernel stack are those that region 0 maps.
unfoldable pub start_memory : Given → Kernel → Boot (List Pte × List Pte × Kernel)
unfolding new_table
start_memory g k = do
  (table0, k₁) ← new_table g.hw k
  (table1, k₂) ← new_table g.hw k₁
  frames ←
      is_made (init_frame_list g.hw (answers k₂ 0) (g.pmem_size / page_size g.hw) g.frames_brk).1
  region0 ← runs (
      boot_table g.hw g.kernel_data.data_start g.table_brk (region0_pages g.hw) g.hw.vmem_0_base
        table0)
  let stack : List Pte = take g.stack_pages (drop (stack_entry g.hw) region0)
  goes (
    region0,
    table1,
    record (took k₂) {
      frames = record k.frames { array = frames };
      stack_map = map (λ (e : Pte). e.pfn) stack;
    },
  )

-- The buffers of the terminals, the maps of the synchronization objects and the scheduler.
unfoldable pub start_objects : Given → List Pte → Kernel → Boot (List Pte × Kernel)
start_objects g region0 k = do
  (region0', k₁) ← must (init_buffers (buffers_entry g.hw) g.terminals region0 k)
  k₂ ← must (init_lock_map k₁)
  k₃ ← must (init_cvar_map k₂)
  k₄ ← must (init_pipe_map k₃)
  k₅ ← must (init_scheduler g.terminals k₄)
  goes (region0', k₅)

-- The process as the loaders leave it.
abbrev pub set_image_of : Ptr → Pcb → Process → Kernel → Kernel
set_image_of p pcb image k =
    set_pcb p (record pcb { brk = image.brk; r1_table = image.memory.table })
      (record k { frames = image.memory.frames })

unfoldable pub start_idle : Given → Kernel → Boot (Ptr × Kernel)
start_idle g k = do
  (p, k₁) ← need (init_process g.hw g.stack_pages g.garbage k)
  pcb ← runs (deref (k₁.pcbs p))
  image ← must (load_idle g.hw g.constants g.do_idle (image_of pcb k₁))
  goes (p, set_image_of p pcb image k₁)

-- `LoadProgram(…) != SUCCESS`.
abbrev pub loads : Run (LoadStatus × Process) → Boot Process
loads fault = fault
loads (ok (loaded, image)) = goes image
loads (ok (st, image)) = ok none

-- The lengths of the arguments; without any it is the one argument "init".
abbrev pub args_or_default : List ℕ → List ℕ
args_or_default [] = 4 ∷ []
args_or_default (len ∷ lens) = len ∷ lens

-- The first process. REG_PTBR1 is not written here: it holds the address of `table1` since virtual
-- memory is on, and that is from now on the table of `p`, by which `ptbr1` names it.
unfoldable pub start_init : Given → List Pte → Kernel → Boot (Process × Kernel)
start_init g table1 k = do
  (p, k₁) ← need (init_init_process table1 k)
  pcb ← runs (deref (k₁.pcbs p))
  image ←
      loads (load_program g.hw g.constants g.file (args_or_default g.cmd_args) (image_of pcb k₁))
  goes (image, record (set_image_of p pcb image k₁) { curr = p; ptbr1 = p })

-- `starterKernelStack` and `starterKctxt`.
unfoldable pub start_contexts : Kernel → Boot Kernel
start_contexts k =
    if answers k 0 then (if answers k 1 then goes (took_many 2 k) else ok none) else ok none

unfoldable pub kernel_start : Given → Kernel → Boot Machine
kernel_start g k = do
  vector ← runs (interrupt_vector g.numbers)
  (region0, table1, k₁) ← start_memory g k
  (region0', k₂) ← start_objects g region0 k₁
  (idle, k₃) ← start_idle g k₂
  (image, k₄) ← start_init g table1 k₃
  k₅ ← start_contexts k₄
  goes (record {
    vector = vector;
    registers = record {
      ptbr0 = k.mallocs 0;
      ptlr0 = g.hw.max_pt_len;
      ptbr1 = k.mallocs 1;
      ptlr1 = g.hw.max_pt_len;
    };
    region0 = region0';
    kernel = k₅;
    sp = image.sp;
    pc = image.pc;
  })
