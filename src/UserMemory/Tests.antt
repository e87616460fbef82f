-- ===== src/UserMemory/Tests.antt =====
-- A buffer and strings in the region 1 of Brk.Sample.
use yallnix.Prelude.{
  ℕ, ◌≡◌, refl, Option, some, none, [], ok, fault, true, arith, ltb, ◌==◌, if◌then◌else◌,
}
use yallnix.Prelude.Int.{pos}
use yallnix.Brk.Sample.{machine, entry, memory}
use yallnix.UserMemory.{Tables, prot_read, is_valid_buffer, is_valid_string, string_loop, scan_page}
use yallnix.UserMemory.Buffers.{is_valid_buffer-all_grant}
use yallnix.UserMemory.Strings.{is_valid_string-unmapped}

abbrev tables : Tables
tables = record { region0 = []; region1 = memory.table }

-- Twenty-one bytes on the two pages that are mapped.
is_valid_buffer-all_grant_example : is_valid_buffer machine tables 130 (pos 21) prot_read ≡ ok true
is_valid_buffer-all_grant_example =
    is_valid_buffer-all_grant machine tables 130 20 prot_read (record {
      not_null = omega arith;
      above = omega arith;
      below = omega arith;
      fits = omega arith;
    })

-- A string of three characters.
abbrev short_text : ℕ → Option ℕ
short_text a = if a == 133 then some 0 else some 65

short_text-valid : is_valid_string machine tables short_text 130 ≡ ok true
unfolding is_valid_string string_loop scan_page
short_text-valid = refl

-- Two characters at the end of a page, and nothing behind it.
abbrev cut_text : ℕ → Option ℕ
cut_text a = if ltb a 144 then some 65 else none

is_valid_string-unmapped_example : is_valid_string machine tables cut_text 142 ≡ fault
is_valid_string-unmapped_example =
    is_valid_string-unmapped machine tables cut_text 142 (entry 4) (omega arith) (omega arith)
      (omega arith) refl refl ((64, refl), ((64, refl), tt)) refl
