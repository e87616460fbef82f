-- ===== src/KernelCalls/Exec/Tests.antt =====
-- KernelFork and KernelExec from the states of Kernel.Sample.
use yallnix.Prelude.{
  ℕ, Option, false, true, replicate, ◌⊎◌, ◌<◌, ◌≡◌, refl, some, none, ok, List, [], ◌∷◌, success,
  error, ◌==◌, if◌then◌else◌,
}
use yallnix.Prelude.Int.{negsuc}
use yallnix.Kernel.{err, trap, returned}
use yallnix.Brk.Sample.{machine, unmapped, memory, memory-Sound}
use yallnix.FrameList.{Frames}
use yallnix.FrameList.Alloc.{count_free}
use yallnix.PageTable.{Pte}
use yallnix.KernelCalls.Fork.{copy_pages}
use yallnix.KernelCalls.Copying.{Copied, count_valid, copy_pages-Copied}
use yallnix.UserMemory.{Tables, is_valid_string, string_loop, scan_page}
use yallnix.Loading.{Constants, File, load_program}
use yallnix.KernelCalls.Exec.{kernel_exec, check_args, exec_found, after_load, image_of, set_image}
use yallnix.KernelCalls.Failure.{Refused, Replaced, kernel_exec-Refused}
use yallnix.Kernel.Sample.{pcb, sample}

-- Two pages for the child, which takes the two free frames.
copy_pages-Copied_example :
    (table : List Pte) × (fs : Frames) × (((copy_pages memory.table
            (replicate 8 unmapped)
            memory.frames
          ≡ ok (success, table, fs))
        × Copied memory.table table memory.frames fs)
      ⊎ ((copy_pages memory.table (replicate 8 unmapped) memory.frames ≡ ok (error, table, fs))
          × (count_free fs.array ≡ 0)
          × (count_free memory.frames.array < count_valid memory.table)))
copy_pages-Copied_example =
    copy_pages-Copied memory.table (replicate 8 unmapped) memory.frames refl
      (refl, (refl, (refl, (refl, (refl, (refl, (refl, (refl, tt)))))))) memory-Sound.distinct
      memory-Sound.guarded

abbrev page_tables : Tables
page_tables = record { region0 = []; region1 = memory.table }

-- The file cannot be opened.
abbrev no_file : File
no_file = record {
  is_open = false;
  info = none;
  has_buffer = true;
  text_read = true;
  data_read = true;
}

abbrev constants : Constants
constants = record { pointer = 4; post_null = 0; frame = 16 }

-- The name "A" at 130.
abbrev name : ℕ → Option ℕ
name a = if a == 131 then some 0 else some 65

exec_fails :
    kernel_exec machine constants no_file page_tables name
      (λ a. 1)
      true
      (negsuc 0)
      130
      (130 ∷ 0 ∷ [])
      sample
    ≡ ok (returned err, set_image (pcb 1 trap) (image_of (pcb 1 trap) sample) sample)
unfolding kernel_exec is_valid_string string_loop scan_page check_args exec_found load_program
    after_load
exec_fails = refl

kernel_exec-Refused_example :
    Refused err sample (set_image (pcb 1 trap) (image_of (pcb 1 trap) sample) sample)
    ⊎ Replaced machine constants no_file true err sample
        (set_image (pcb 1 trap) (image_of (pcb 1 trap) sample) sample)
kernel_exec-Refused_example =
    kernel_exec-Refused machine constants no_file page_tables name (λ a. 1) true (negsuc 0) 130
      (130 ∷ 0 ∷ []) sample (set_image (pcb 1 trap) (image_of (pcb 1 trap) sample) sample) err
      exec_fails
