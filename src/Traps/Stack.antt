-- ===== src/Traps/Stack.antt =====
-- `handleTrapMemory`: which pages of the stack a fault maps.
use yallnix.Prelude.{
  ==_iff, ℕ, zero, suc, ◌+◌, ◌-◌, ◌<◌, ◌≤◌, ◌≡◌, refl, ap, ◌∙◌, Bool, true, false, some, sym, subst,
  get_elem?, ok, ltb, ◌==◌, if◌then◌else◌, error, success, length, arith, ◌⊎◌, inl, inr, Bool-cases,
  get_elem?_of_lt,
}
use yallnix.Prelude.Int.{ℤ}
use yallnix.Hardware.{Hardware, page_of, user_base_vpn}
use yallnix.FrameList.Alloc.{count_free, free_at}
use yallnix.Brk.{Memory}
use yallnix.Brk.Pages.{
  Fresh, is_valid, Sound, mapped, within, validate_page-Validated, validate_page-full,
}
use yallnix.Kernel.{Kernel, Pcb, to_user, set_pcb}
use yallnix.KernelCalls.General.{kernel_exit}
use yallnix.Traps.{stack_page, grow_stack, top_page, handle_trap_memory}

-- The entry `j` is as before, unless the page is one of those that are `meant` and was not mapped: then
-- it is a new one on a frame that was free.
abbrev pub Kept : Bool → Memory → Memory → ℕ → Type 0
Kept meant old mem j =
    (get_elem? mem.table j ≡ get_elem? old.table j)
    ⊎ ((meant ≡ true) × (mapped j old ≡ false) × Fresh j old mem)

-- One round that succeeds: the page at `i` is mapped, and no other page nor one that was mapped changes.
record Round (i : ℕ) (mem mem' : Memory) : Type 0 where
  same_length : length mem'.table ≡ length mem.table
  maps : (j : ℕ) → mapped j mem' ≡ (if i == j then true else mapped j mem)
  kept : (j : ℕ) → Kept (i == j) mem mem' j
  fewer : (q : ℕ) → free_at q mem'.frames.array ≡ true → free_at q mem.frames.array ≡ true
  sound : Sound mem'

already :
    (i j : ℕ) (mem : Memory)
    → mapped i mem ≡ true
    → mapped j mem ≡ (if i == j then true else mapped j mem)
already i j mem m = ground (arith, m)

stack_page-Round :
    (i : ℕ) (mem : Memory)
    → i < length mem.table
    → Sound mem
    → (mem' : Memory) × (((stack_page i mem ≡ ok (success, mem')) × Round i mem mem')
        ⊎ ((stack_page i mem ≡ ok (error, mem')) × (count_free mem'.frames.array ≡ 0)))
unfolding stack_page
stack_page-Round i mem lt s =
    let (e, at) = get_elem?_of_lt mem.table i lt in
    elim (Bool-cases e.valid) [
      | inl valid ↦ (
        mem,
        inl (
          ground (arith, at, valid),
          record {
            same_length = refl;
            maps = λ j. already i j mem (ground (arith, at, valid));
            kept = λ j. inl refl;
            fewer = λ q free_now. free_now;
            sound = s;
          },
        ),
      )
      | inr invalid ↦ elim (Bool-cases (ltb 0 (count_free mem.frames.array))) [
        | inl free ↦
            let (m₁, run, v) = validate_page-Validated i mem lt (ground arith) s in
            (
              m₁,
              inl (
                ground (arith, at, invalid, run),
                record {
                  same_length = v.same_length;
                  maps = v.maps;
                  kept = λ j. elim (Bool-cases (i == j)) [
                    | inl same ↦ inr (
                      same,
                      ground (arith, same, at, invalid),
                      subst (λ z. Fresh z mem m₁) ((==_iff i j).0 same) v.fresh,
                    )
                    | inr miss ↦ inl (v.others j (λ z. ground (arith, z, miss)))
                  ];
                  fewer = v.fewer;
                  sound = v.sound;
                },
              ),
            )
        | inr full ↦
            let z : count_free mem.frames.array ≡ 0 = ground arith in
            (mem, inr (ground (arith, at, invalid, validate_page-full i mem z s.guarded), z))
      ]
    ]

joined :
    (n i j : ℕ) (a b c : Bool)
    → suc n ≤ i + 1
    → a ≡ (if within (i - 1 + 1 - n) n j then true else b)
    → b ≡ (if i == j then true else c)
    → a ≡ (if within (i + 1 - suc n) (suc n) j then true else c)
joined n i j a b c le maps one = ground (arith, maps, one)

joined-Kept :
    (n i j : ℕ) (old mem mem' : Memory)
    → suc n ≤ i + 1
    → ((q : ℕ) → free_at q mem.frames.array ≡ true → free_at q old.frames.array ≡ true)
    → Kept (i == j) old mem j
    → Kept (within (i - 1 + 1 - n) n j) mem mem' j
    → Kept (within (i + 1 - suc n) (suc n) j) old mem' j
joined-Kept n i j old mem mem' le fewer (inl a) (inl b) = inl (b ∙ a)
joined-Kept n i j old mem mem' le fewer (inl a) (inr (meant, out, f)) = inr (
  ground (arith, le, meant),
  ap is_valid (sym a) ∙ out,
  record { pfn = f.pfn; entry = f.entry; was_free = fewer f.pfn f.was_free },
)
joined-Kept n i j old mem mem' le fewer (inr (hit, out, f)) (inl b) = inr (
  ground (arith, le, hit),
  out,
  record { pfn = f.pfn; entry = b ∙ f.entry; was_free = f.was_free },
)
joined-Kept n i j old mem mem' le fewer (inr (hit, out, f)) (inr (meant, unmapped, g)) =
    cc (ap is_valid f.entry, unmapped)

-- Every page of a range is mapped afterwards, and no other page nor one that was mapped changes; or
-- every frame is taken.
pub grow_stack-maps :
    (n i : ℕ) (mem : Memory)
    → n ≤ i + 1
    → i < length mem.table
    → Sound mem
    → (mem' : Memory) × (((grow_stack n i mem ≡ ok (success, mem'))
          × ((j : ℕ) → mapped j mem' ≡ (if within (i + 1 - n) n j then true else mapped j mem))
          × ((j : ℕ) → Kept (within (i + 1 - n) n j) mem mem' j))
        ⊎ ((grow_stack n i mem ≡ ok (error, mem')) × (count_free mem'.frames.array ≡ 0)))
unfolding grow_stack
grow_stack-maps zero i mem le lt s = (mem, inl (refl, (λ j. ground arith), λ j. inl refl))
grow_stack-maps (suc n) i mem le lt s =
    let (m₁, r) = stack_page-Round i mem lt s in
    elim r [
      | inr (run, z) ↦ (m₁, inr (ground (arith, run), z))
      | inl (run, v) ↦
          let (m₂, r₂) =
            grow_stack-maps n (i - 1) m₁ (omega arith) (omega (arith, v.same_length)) v.sound in
          elim r₂ [
            | inl (run₂, maps, kept) ↦ (
              m₂,
              inl (
                rw run run₂,
                (λ j. joined n i j _ _ _ le (maps j) (v.maps j)),
                λ j. joined-Kept n i j mem m₁ m₂ le v.fewer (v.kept j) (kept j),
              ),
            )
            | inr (run₂, z) ↦ (m₂, inr (rw run run₂, z))
          ]
    ]

-- The state with the pages and frames of `mem`.
abbrev pub with_memory : Memory → Pcb → Kernel → Kernel
with_memory mem pcb k =
    set_pcb k.curr (record pcb { r1_table = mem.table }) (record k { frames = mem.frames })

-- The table is the one of region 1, and the address is above the break's page and the red zone.
pub record StackFault (hw : Hardware) (addr : ℕ) (pcb : Pcb) (k : Kernel) : Type 0 where
  pub alive : k.pcbs k.curr ≡ some pcb
  pub sized : length pcb.r1_table ≡ hw.max_pt_len
  pub layout : user_base_vpn hw + hw.max_pt_len ≡ top_page hw + 1
  pub user : user_base_vpn hw ≤ page_of hw pcb.brk
  pub above : page_of hw pcb.brk + 1 < page_of hw addr
  pub sound : Sound (record { table = pcb.r1_table; frames = k.frames })

-- `handleTrapMemory` at an address above the red zone and not above the last page of region 1,
-- with a sound frame list and the table of region 1: either it goes back to the user, every page
-- from the one of the address to the last is mapped, each that was not before to a frame that was
-- free, for reading and writing, and the entry of every other page, and of every page that was
-- mapped already, is as it was; or every frame is taken, and it does what `KernelExit` does.
pub handle_trap_memory-maps :
    (hw : Hardware) (code : ℤ) (addr : ℕ) (pcb : Pcb) (k : Kernel)
    → StackFault hw addr pcb k
    → page_of hw addr ≤ top_page hw
    → let old : Memory = record { table = pcb.r1_table; frames = k.frames } in
      (mem : Memory) × (((handle_trap_memory hw code addr k ≡ ok (to_user, with_memory mem pcb k))
          × ((j : ℕ)
              → mapped j mem ≡ (
                  if within
                    (page_of hw addr - user_base_vpn hw)
                    (top_page hw + 1 - page_of hw addr)
                    j
                  then true
                  else mapped j old))
          × ((j : ℕ)
              → Kept
                  (within
                    (page_of hw addr - user_base_vpn hw)
                    (top_page hw + 1 - page_of hw addr)
                    j)
                  old
                  mem
                  j))
        ⊎ ((handle_trap_memory hw code addr k ≡ kernel_exit code (with_memory mem pcb k))
            × (count_free mem.frames.array ≡ 0)))
unfolding handle_trap_memory
handle_trap_memory-maps hw code addr pcb k f top =
    let n = top_page hw + 1 - page_of hw addr in
    let i = hw.max_pt_len - 1 in
    let old : Memory = record { table = pcb.r1_table; frames = k.frames } in
    let (mem, r) =
      grow_stack-maps n i old (omega (arith, f.layout, f.user, f.above))
        (omega (arith, f.sized, f.layout, top, f.user, f.above)) f.sound in
    let first : i + 1 - n ≡ page_of hw addr - user_base_vpn hw =
      omega (arith, f.layout, top, f.user, f.above) in
    (
      mem,
      elim r [
        | inl (run, maps, kept) ↦ inl (
          ground (arith, f.alive, f.above, run),
          (λ j. maps j ∙ ap (λ z. if within z n j then true else mapped j old) first),
          λ j. subst (λ z. Kept (within z n j) old mem j) first (kept j),
        )
        | inr (run, z) ↦ inr (ground (arith, f.alive, f.above, run), z)
      ],
    )

-- `handleTrapMemory` at an address above the last page of region 1 goes back to the user and
-- changes neither the process nor the frame list.
pub handle_trap_memory-beyond :
    (hw : Hardware) (code : ℤ) (addr : ℕ) (pcb : Pcb) (k : Kernel)
    → StackFault hw addr pcb k
    → top_page hw < page_of hw addr
    → (k' : Kernel) × (handle_trap_memory hw code addr k ≡ ok (to_user, k'))
      × (k'.pcbs k.curr ≡ k.pcbs k.curr)
      × (k'.frames ≡ k.frames)
unfolding handle_trap_memory grow_stack
handle_trap_memory-beyond hw code addr pcb k f top =
    let old : Memory = record { table = pcb.r1_table; frames = k.frames } in
    let none_left : top_page hw + 1 - page_of hw addr ≡ 0 = omega arith in
    (
      with_memory old pcb k,
      ground (arith, f.alive, f.above, none_left),
      ground (arith, f.alive),
      refl,
    )
