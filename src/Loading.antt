-- ===== src/Loading.antt =====
-- LoadProgram.c, less the bytes of the program and of its arguments: what `open`, `LoadInfo`, `malloc`
-- and the two `read`s answer is in `File`, and an argument is given by its length. Addresses are
-- unsigned int. `pointer` is the size of a `void *`; `post_null` and `frame` are the constants
-- POST_ARGV_NULL_SPACE and INITIAL_STACK_FRAME_SIZE.
pub mod Arguments
pub mod Pages
pub mod Refusal
mod Tests
use yallnix.Prelude.{
  ℕ, zero, suc, ◌+◌, ◌-◌, ◌*◌, ◌/◌, ◌%◌, ◌^◌, Bool, true, false, Option, none, some, List, [], ◌∷◌,
  ◌++◌, Run, ok, ◌>>=◌, deref, Status, error, success, ltb, leb, ◌==◌, if◌then◌else◌, get_elem?,
  length,
}
use yallnix.Hardware.{Hardware, page_size, down_to_page}
use yallnix.FrameList.{Frames, free_frame}
use yallnix.PageTable.{Pte, Prot}
use yallnix.Brk.{Memory, write_pte, validate_page, validate_pages}

-- The fields of `struct load_info` that are read.
pub record LoadInfo : Type 0 where
  pub entry : ℕ
  pub t_vaddr : ℕ
  pub t_npg : ℕ
  pub id_vaddr : ℕ
  pub id_npg : ℕ
  pub ud_npg : ℕ

pub record File : Type 0 where
  pub is_open : Bool
  pub info : Option LoadInfo
  pub has_buffer : Bool
  pub text_read : Bool
  pub data_read : Bool

pub record Constants : Type 0 where
  pub pointer : ℕ
  pub post_null : ℕ
  pub frame : ℕ

-- SUCCESS, ERROR and KILL.
pub data LoadStatus : Type 0 where
  loaded not_loaded kill : LoadStatus

-- What is changed of the process.
pub record Process : Type 0 where
  pub brk : ℕ
  pub sp : ℕ
  pub pc : ℕ
  pub memory : Memory

-- `a - b` of unsigned int.
abbrev pub sub32 : ℕ → ℕ → ℕ
sub32 a b = (a + 2 ^ 32 - b % 2 ^ 32) % 2 ^ 32

-- The bytes of the arguments.
abbrev pub args_size : List ℕ → ℕ
args_size [] = 0
args_size (len ∷ lens) = len + 1 + args_size lens

-- `cp`, `cpp` and the stack pointer.
abbrev pub args_base : Hardware → List ℕ → ℕ
args_base hw lens = sub32 hw.vmem_1_limit (args_size lens)

abbrev pub vector_base : Hardware → Constants → List ℕ → ℕ
vector_base hw c lens =
    sub32 (args_base hw lens) ((length lens + 3 + c.post_null) * c.pointer) / 8 * 8

abbrev pub stack_pointer : Hardware → Constants → List ℕ → ℕ
stack_pointer hw c lens = sub32 (vector_base hw c lens) c.frame

abbrev pub stack_pages : Hardware → Constants → List ℕ → ℕ
stack_pages hw c lens =
    sub32 hw.vmem_1_limit (down_to_page hw (stack_pointer hw c lens)) / page_size hw

-- The loop that writes `argv`, and the words that are written from `cpp` on.
abbrev pub arg_pointers : ℕ → List ℕ → List ℕ
arg_pointers cp [] = []
arg_pointers cp (len ∷ lens) = cp ∷ arg_pointers (cp + len + 1) lens

abbrev pub vector_words : Hardware → List ℕ → List ℕ
vector_words hw lens = length lens ∷ arg_pointers (args_base hw lens) lens ++ 0 ∷ 0 ∷ []

-- The loop that frees the old pages.
unfoldable pub clear_pages : List Pte → Frames → Memory
clear_pages [] fs = record { table = []; frames = fs }
clear_pages (e ∷ table) fs =
    let fs' : Frames = if e.valid then free_frame fs e.pfn else fs in
    let rest : Memory = clear_pages table fs' in
    record rest { table = record e { valid = false } ∷ rest.table }

abbrev pub read_exec : Prot
read_exec = record { read = true; write = false; exec = true }

-- The loop that protects the text.
unfoldable pub protect_pages : ℕ → ℕ → Memory → Run Memory
protect_pages zero i mem = ok mem
protect_pages (suc n) i mem = do
  e ← deref (get_elem? mem.table i)
  mem₁ ← write_pte i (record e { prot = read_exec }) mem
  protect_pages n (i + 1) mem₁

-- The three loops that map pages, each with a frame for every page. The Boolean says whether the pages of
-- text and data are there.
unfoldable pub map_pages : ℕ → ℕ → ℕ → ℕ → ℕ → ℕ → Memory → Run (Status × Bool × Memory)
map_pages text_pg text_npg data_pg data_npg stack_pg stack_npg mem = do
  (st, m₁) ← validate_pages text_npg text_pg mem
  elim st [
    | error ↦ ok (error, false, m₁)
    | success ↦ do
      (st₂, m₂) ← validate_pages data_npg data_pg m₁
      elim st₂ [
        | error ↦ ok (error, false, m₂)
        | success ↦ do (st₃, m₃) ← validate_pages stack_npg stack_pg m₂; ok (st₃, true, m₃)
      ]
  ]

-- The pages that a program needs.
abbrev pub text_page : Hardware → LoadInfo → ℕ
text_page hw li = sub32 li.t_vaddr hw.vmem_1_base / page_size hw

abbrev pub data_page : Hardware → LoadInfo → ℕ
data_page hw li = sub32 li.id_vaddr hw.vmem_1_base / page_size hw

abbrev pub data_pages : LoadInfo → ℕ
data_pages li = li.id_npg + li.ud_npg

-- `proc->brk`, which is set between the pages of data and those of the stack.
abbrev pub set_brk : Hardware → LoadInfo → Process → Process
set_brk hw li p = record p { brk = hw.vmem_1_base + (data_pages li + li.t_npg) * page_size hw }

-- What follows the loops that map pages.
unfoldable pub finish_load :
    Hardware → File → LoadInfo → Status → Process → Memory → Run (LoadStatus × Process)
finish_load hw file li error p mem = ok (kill, record p { memory = mem })
finish_load hw file li success p mem =
    if file.text_read
    then (if file.data_read
        then (do
          mem₁ ← protect_pages li.t_npg (text_page hw li) mem
          ok (loaded, record p { pc = li.entry; memory = mem₁ }))
        else ok (kill, record p { memory = mem }))
    else ok (kill, record p { memory = mem })

-- The part behind the checks: loading ends in success or in KILL.
unfoldable pub load_pages : Hardware → File → LoadInfo → ℕ → Process → Run (LoadStatus × Process)
load_pages hw file li stack_npg p = do
  let old : Memory = clear_pages p.memory.table p.memory.frames
  (st, done, mem) ←
      map_pages (text_page hw li) li.t_npg (data_page hw li) (data_pages li)
        (hw.max_pt_len - stack_npg) stack_npg old
  finish_load hw file li st (if done then set_brk hw li p else p) mem

unfoldable pub load_program :
    Hardware → Constants → File → List ℕ → Process → Run (LoadStatus × Process)
load_program hw c file lens p =
    if file.is_open
    then elim file.info [
      | none ↦ ok (not_loaded, p)
      | some li ↦
          let stack_npg : ℕ = stack_pages hw c lens in
          if ltb li.entry hw.vmem_1_base
          then ok (not_loaded, p)
          else if leb hw.max_pt_len (stack_npg + data_page hw li + data_pages li)
          then ok (not_loaded, p)
          else if file.has_buffer
          then load_pages hw file li stack_npg (record p { sp = stack_pointer hw c lens })
          else ok (kill, record p { sp = stack_pointer hw c lens })
    ]
    else ok (not_loaded, p)

-- LoadIdle: one page of stack.
unfoldable pub load_idle : Hardware → Constants → ℕ → Process → Run (Status × Process)
load_idle hw c do_idle p = do
  (st, mem) ← validate_page (hw.max_pt_len - 1) p.memory
  elim st [
    | error ↦ ok (error, record p { memory = mem })
    | success ↦
        ok (success, record { brk = p.brk; sp = stack_pointer hw c []; pc = do_idle; memory = mem })
  ]
