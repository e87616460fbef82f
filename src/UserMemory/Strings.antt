-- ===== src/UserMemory/Strings.antt =====
-- `isValidString`: the strings that it accepts, and the page behind the first one.
use native.Mathlib.Nat.{lt-div-mul-add}
use yallnix.Prelude.{
  ℕ, zero, suc, ◌+◌, ◌-◌, ◌*◌, ◌<◌, ◌≤◌, ◌≡◌, ◌≢◌, refl, ap, ◌∙◌, Bool, true, false, Option, none,
  some, Run, ok, fault, ◌>>=◌, deref, null, get_elem?, arith, >>=-eq-ok, deref-eq,
}
use yallnix.Hardware.{Hardware, page_size, page_of, down_to_page, user_base_vpn}
use yallnix.PageTable.{Pte, Prot}
use yallnix.PageTable.Address.{pow_pos}
use yallnix.UserMemory.{Tables, grants, scan_page, string_loop, prot_read, is_valid_string}

-- A NUL fewer than `n` characters from an address on.
pub record Ends (mem : ℕ → Option ℕ) (addr n : ℕ) : Type 0 where
  pub at : ℕ
  pub near : at < n
  pub nul : mem (addr + at) ≡ some 0

later : (mem : ℕ → Option ℕ) (addr d n m : ℕ) → d + n ≤ m → Ends mem (addr + d) n → Ends mem addr m
later mem addr d n m le e = record {
  at = d + e.at;
  near = omega (arith, e.near);
  nul = ap mem (reassoc addr d e.at) ∙ e.nul;
}
  where
    reassoc : (a b c : ℕ) → a + (b + c) ≡ a + b + c
    reassoc a b c = omega arith

scan_page-Ends :
    (mem : ℕ → Option ℕ) (addr n : ℕ) → scan_page mem addr n ≡ ok true → Ends mem addr n
unfolding scan_page
scan_page-Ends mem addr zero e = cc
scan_page-Ends mem addr (suc n) e =
    let (c, e₁, e₂) = >>=-eq-ok (deref (mem addr)) _ e in
    char c (deref-eq (mem addr) c e₁) e₂ (scan_page-Ends mem (addr + 1) n)
  where
    char :
        (c : ℕ)
        → mem addr ≡ some c
        → elim c as (λ _. Run Bool) [ zero ↦ ok true | suc _ ↦ scan_page mem (addr + 1) n ]
          ≡ ok true
        → (scan_page mem (addr + 1) n ≡ ok true → Ends mem (addr + 1) n)
        → Ends mem addr (suc n)
    char zero at e rest = record { at = 0; near = omega arith; nul = ground (arith, at) }
    char (suc c) at e rest = later mem addr 1 n (suc n) (omega arith) (rest e)

pred_suc : (n : ℕ) → suc n - 1 ≡ n
pred_suc n = omega arith

string_loop-Ends :
    (mem : ℕ → Option ℕ) (size : ℕ) (prot : Prot) (e : Pte) (n addr left : ℕ)
    → string_loop mem size prot e n addr left ≡ ok true
    → (grants prot e ≡ true) × Ends mem addr (left + (n - 1) * size)
unfolding string_loop
string_loop-Ends mem size prot e zero addr left run = cc
string_loop-Ends mem size prot e (suc n) addr left run =
    let (g, ends) =
      granted (grants prot e) refl run (string_loop-Ends mem size prot e n (addr + left) size) in
    (
      g,
      record {
        at = ends.at;
        near = omega (arith, ends.near, ap (λ m. m * size) (pred_suc n));
        nul = ends.nul;
      },
    )
  where
    next_page :
        (n : ℕ) (found : Bool)
        → scan_page mem addr left ≡ ok found
        → elim found [ true ↦ ok true | false ↦ string_loop mem size prot e n (addr + left) size ]
          ≡ ok true
        → (string_loop mem size prot e n (addr + left) size ≡ ok true
            → (grants prot e ≡ true) × Ends mem (addr + left) (size + (n - 1) * size))
        → Ends mem addr (left + n * size)
    next_page n true scan run rest =
        let ends = scan_page-Ends mem addr left scan in
        record { at = ends.at; near = omega (arith, ends.near); nul = ends.nul }
    next_page zero false scan run rest = cc
    next_page (suc m) false scan run rest =
        later mem addr left (size + (suc m - 1) * size) (left + suc m * size) (grind arith)
          (rest run).1

    granted :
        (b : Bool)
        → grants prot e ≡ b
        → elim b [
          | false ↦ ok false
          | true ↦ do
            found ← scan_page mem addr left
            elim found [ true ↦ ok true | false ↦ string_loop mem size prot e n (addr + left) size ]
        ]
          ≡ ok true
        → (string_loop mem size prot e n (addr + left) size ≡ ok true
            → (grants prot e ≡ true) × Ends mem (addr + left) (size + (n - 1) * size))
        → (b ≡ true) × Ends mem addr (left + n * size)
    granted false g run rest = cc
    granted true g run rest =
        let (found, e₁, e₂) = >>=-eq-ok (scan_page mem addr left) _ run in
        (refl, next_page n found e₁ e₂ rest)

in_region1 :
    (hw : Hardware) (t : Tables) (mem : ℕ → Option ℕ) (string : ℕ)
    → hw.max_pt_len ≤ page_of hw string
    → is_valid_string hw t mem string ≡ ok true
    → (page_of hw string < hw.max_pt_len * 2)
      × ((do
        e ← deref (get_elem? t.region1 (page_of hw string - user_base_vpn hw))
        string_loop mem
            (page_size hw)
            prot_read
            e
            (hw.max_pt_len * 2 - page_of hw string)
            string
            (down_to_page hw string + page_size hw - string))
          ≡ ok true)
unfolding is_valid_string
in_region1 hw t mem string above run = ground arith

distribute : (p k d : ℕ) → (p + 1 + k) * d ≡ p * d + d + k * d
distribute p k d = grind arith

span_mul :
    (p m d string : ℕ)
    → p < m
    → string < p * d + d
    → 0 + (p * d + d - string + (m - p - 1) * d) ≤ m * d - string
span_mul p m d string lt le =
    let whole : m ≡ p + 1 + (m - p - 1) = omega arith in
    omega (arith, ap (λ z. z * d) whole, distribute p (m - p - 1) d)

span :
    (hw : Hardware) (string : ℕ)
    → page_of hw string < hw.max_pt_len * 2
    → 0
        + (down_to_page hw string
            + page_size hw
            - string
            + (hw.max_pt_len * 2 - page_of hw string - 1) * page_size hw)
      ≤ hw.max_pt_len * 2 * page_size hw - string
span hw string below =
    span_mul (page_of hw string) (hw.max_pt_len * 2) (page_size hw) string below
      (lt-div-mul-add (pow_pos hw.page_shift))

-- A string that begins in region 1 and that `isValidString` accepts begins on a page that may be
-- read, and has a NUL below the end of region 1.
pub is_valid_string-Ends :
    (hw : Hardware) (t : Tables) (mem : ℕ → Option ℕ) (string : ℕ)
    → hw.max_pt_len ≤ page_of hw string
    → is_valid_string hw t mem string ≡ ok true
    → (e : Pte) × (get_elem? t.region1 (page_of hw string - user_base_vpn hw) ≡ some e)
      × (grants prot_read e ≡ true)
      × Ends mem string (hw.max_pt_len * 2 * page_size hw - string)
unfolding is_valid_string
is_valid_string-Ends hw t mem string above run =
    let (below, body) = in_region1 hw t mem string above run in
    let (e, e₁, e₂) = >>=-eq-ok (deref (get_elem? t.region1 _)) _ body in
    let (g, ends) = string_loop-Ends mem (page_size hw) prot_read e _ string _ e₂ in
    (e, deref-eq _ e e₁, g, later mem string 0 _ _ (span hw string below) (ground (arith, ends)))

-- A page without a NUL.
abbrev pub AllText : (ℕ → Option ℕ) → ℕ → ℕ → Type 0
AllText mem addr zero = Unit {0}
AllText mem addr (suc n) = ((c : ℕ) × (mem addr ≡ some (suc c))) × AllText mem (addr + 1) n

scan_page-AllText :
    (mem : ℕ → Option ℕ) (addr n : ℕ) → AllText mem addr n → scan_page mem addr n ≡ ok false
unfolding scan_page
scan_page-AllText mem addr zero all = refl
scan_page-AllText mem addr (suc n) all =
    ground (arith, all.0.1, scan_page-AllText mem (addr + 1) n all.1)

second_page :
    (mem : ℕ → Option ℕ) (size : ℕ) (prot : Prot) (e : Pte) (n addr left : ℕ)
    → 1 < n
    → 0 < size
    → grants prot e ≡ true
    → AllText mem addr left
    → mem (addr + left) ≡ none
    → string_loop mem size prot e n addr left ≡ fault
unfolding string_loop scan_page
second_page mem size prot e zero addr left lt p g text out = absurd (omega arith)
second_page mem size prot e (suc zero) addr left lt p g text out = absurd (omega arith)
second_page mem zero prot e (suc (suc n)) addr left lt p g text out = absurd (omega arith)
second_page mem (suc size) prot e (suc (suc n)) addr left lt p g text out =
    ground (arith, scan_page-AllText mem addr left text)

-- `isValidString` faults on a string in region 1 that begins on a page that may be read, does not
-- end on it, and goes on into memory that is not mapped, unless the first page is the last.
pub is_valid_string-unmapped :
    (hw : Hardware) (t : Tables) (mem : ℕ → Option ℕ) (string : ℕ) (e : Pte)
    → string ≢ null
    → hw.max_pt_len ≤ page_of hw string
    → page_of hw string + 1 < hw.max_pt_len * 2
    → get_elem? t.region1 (page_of hw string - user_base_vpn hw) ≡ some e
    → grants prot_read e ≡ true
    → AllText mem string (down_to_page hw string + page_size hw - string)
    → mem (string + (down_to_page hw string + page_size hw - string)) ≡ none
    → is_valid_string hw t mem string ≡ fault
unfolding is_valid_string
is_valid_string-unmapped hw t mem string e nn above below at g text out =
    let run =
      second_page mem (page_size hw) prot_read e (hw.max_pt_len * 2 - page_of hw string) string
        (down_to_page hw string + page_size hw - string) (omega arith) (pow_pos hw.page_shift) g
        text out in
    ground (arith, run)
