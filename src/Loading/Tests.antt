-- ===== src/Loading/Tests.antt =====
-- A program of one page of text and one of data for the process of Brk.Sample.
use yallnix.Prelude.{ℕ, ◌≡◌, ◌≤◌, ◌<◌, ◌⊎◌, refl, true, some, ok, [], ◌∷◌, arith}
use yallnix.FrameList.Alloc.{count_free}
use yallnix.Brk.Pages.{mapped}
use yallnix.Brk.Sample.{machine, memory, memory-Sound}
use yallnix.Loading.{Constants, LoadInfo, File, Process, loaded, kill, load_pages, clear_pages}
use yallnix.Loading.Arguments.{Arranged, stack_pointer-Arranged}
use yallnix.Loading.Pages.{in_image, load_pages-in_image}

abbrev constants : Constants
constants = record { pointer = 4; post_null = 0; frame = 16 }

-- Arguments of three and two characters.
stack_pointer-Arranged_example : Arranged machine constants (3 ∷ 2 ∷ [])
stack_pointer-Arranged_example =
    stack_pointer-Arranged machine constants (3 ∷ 2 ∷ [])
      (record { bounded = omega arith; room = omega arith }) refl

abbrev info : LoadInfo
info = record { entry = 128; t_vaddr = 128; t_npg = 1; id_vaddr = 144; id_npg = 1; ud_npg = 0 }

abbrev file : File
file = record {
  is_open = true;
  info = some info;
  has_buffer = true;
  text_read = true;
  data_read = true;
}

abbrev process : Process
process = record { brk = 160; sp = 0; pc = 0; memory = memory }

load_pages-in_image_example :
    (p : Process) × (((load_pages machine file info 1 process ≡ ok (loaded, p))
        × (3 ≤ count_free (clear_pages memory.table memory.frames).frames.array)
        × ((j : ℕ) → mapped j p.memory ≡ in_image machine info 1 j))
      ⊎ ((load_pages machine file info 1 process ≡ ok (kill, p))
          × (count_free (clear_pages memory.table memory.frames).frames.array < 3)
          × (count_free p.memory.frames.array ≡ 0)))
load_pages-in_image_example =
    load_pages-in_image machine file info 1 process refl refl
      (record { text = omega arith; data_end = omega arith; stack = omega arith }) memory-Sound
