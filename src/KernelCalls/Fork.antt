-- ===== src/KernelCalls/Fork.antt =====
-- KernelFork of KernelCalls/GeneralKernelCalls.c, less the bytes of the pages that are copied through
-- the page below the kernel stack.
use yallnix.Prelude.{
  ℕ, ◌+◌, true, not, none, some, List, [], ◌∷◌, Run, ok, fault, ◌>>=◌, deref, Ptr, null, ◌==◌,
  if◌then◌else◌, Status, error, success,
}
use yallnix.Prelude.Int.{pos}
use yallnix.Hardware.{Hardware}
use yallnix.HashMap
use yallnix.FrameList.{Frames, get_frame_loop}
use yallnix.PageTable.{Pte}
use yallnix.Kernel.{
  Kernel, Pcb, starter, fork, err, val, Step, returned, to_user, switched, halted, yields, fresh,
  took, set_pcb,
}
use yallnix.Scheduler.{fork_process}
use yallnix.Scheduler.Creation.{init_pcb}
use yallnix.KernelCalls.General.{after_fork}

-- The loop over the parent's and the child's page tables: each page of the parent gets a frame in the
-- child, with the same protection.
unfoldable pub copy_pages : List Pte → List Pte → Frames → Run (Status × List Pte × Frames)
copy_pages [] child fs = ok (success, child, fs)
copy_pages (e ∷ parent) [] fs = fault
copy_pages (e ∷ parent) (c ∷ child) fs =
    let (got, array, past) = get_frame_loop fs.array fs.past in
    let fs₁ : Frames = record { array = array; past = past } in
    let rest = copy_pages parent child (if e.valid then fs₁ else fs) in
    if e.valid
    then elim got [
      | none ↦ ok (error, c ∷ child, fs₁)
      | some pfn ↦ do
        (st, table, fs₂) ← rest
        ok (st, record { valid = true; prot = e.prot; pfn = pfn } ∷ table, fs₂)
    ]
    else (do (st, table, fs₂) ← rest; ok (st, c ∷ table, fs₂))

-- The end of the call, from the copied pages on. The value of `HashMap_insert` is not checked.
unfoldable pub join_family : Ptr → Kernel → Step
join_family child k = do
  c ← deref (k.pcbs child)
  let k₁ : Kernel = set_pcb child (record c { parent = some k.curr }) k
  me ← deref (k₁.pcbs k.curr)
  (st, children) ← HashMap.insert (not (fresh k₁ == null)) (pos c.pid) (some child) me.children
  let k₂ : Kernel =
      set_pcb k.curr (record me { children = children; num_children = me.num_children + 1 })
        (took k₁)
  (o, k₃) ← fork_process (fork k.curr child) (some child) k₂
  elim o [
    | returned rc ↦ elim rc [ err ↦ yields (returned err) k₃ | val n ↦ after_fork k.curr child k₃ ]
    | to_user ↦ yields to_user k₃
    | switched ↦ yields switched k₃
    | halted ↦ yields halted k₃
  ]

-- A context that is allocated is `starter` until `forkTo` writes it. ERROR in the loop leaves the child
-- and the frames that it has.
unfoldable pub kernel_fork : Hardware → ℕ → List ℕ → Kernel → Step
kernel_fork hw n garbage k = do
  (made, k₁) ← init_pcb hw n garbage k
  elim made [
    | none ↦ yields (returned err) k₁
    | some child ↦ do
      c ← deref (k₁.pcbs child)
      me ← deref (k₁.pcbs k.curr)
      (st, table, fs) ← copy_pages me.r1_table c.r1_table k₁.frames
      let c' : Pcb = record c {
        kctxt = if fresh k₁ == null then none else some starter;
        brk = me.brk;
        r1_table = table;
      }
      let k₂ : Kernel = set_pcb child c' (record (took k₁) { frames = fs })
      elim st [ error ↦ yields (returned err) k₂ | success ↦ join_family child k₂ ]
  ]
