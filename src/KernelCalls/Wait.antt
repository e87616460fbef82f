-- ===== src/KernelCalls/Wait.antt =====
-- KernelWait of KernelCalls/GeneralKernelCalls.c.
use yallnix.Prelude.{
  ◌≡◌, arith, ℕ, zero, suc, ◌-◌, Bool, not, ◌&&◌, Option, none, some, List, ◌∷◌, ok, ◌>>=◌, deref,
  ◌==◌, if◌then◌else◌, get_elem?,
}
use yallnix.Fifo
use yallnix.Hardware.{Hardware, page_of, user_base_vpn}
use yallnix.PageTable.{Prot, get_address_region}
use yallnix.Kernel.{
  Kernel, Pcb, Zombie, wait, err, val, Step, returned, to_user, switched, halted, yields, set_pcb,
}
use yallnix.Scheduler.{block_process}

-- The end of the call: the oldest zombie's status goes to user memory.
unfoldable pub collect : ℕ → Kernel → Step
collect status_ptr k = do
  pcb ← deref (k.pcbs k.curr)
  let r : Option Zombie × Option (List Zombie) = Fifo.deq pcb.zombie_q
  let k₁ : Kernel = set_pcb k.curr (record pcb { zombie_q = r.1 }) k
  elim r.0 [
    | none ↦ yields (returned err) k₁
    | some z ↦
        yields (returned (val z.pid))
          (record k₁ { stored = (k.curr, status_ptr, z.exit_status) ∷ k.stored })
  ]

-- What follows `blockProcess`.
unfoldable pub blocked_then : ℕ → Step → Step
blocked_then status_ptr s = do
  (o, k) ← s
  elim o [
    | returned rc ↦ elim rc [ err ↦ yields halted k | val n ↦ collect status_ptr k ]
    | to_user ↦ yields to_user k
    | switched ↦ yields switched k
    | halted ↦ yields halted k
  ]

-- The part of the call behind the tests of the pointer.
unfoldable pub wait_for_child : ℕ → Kernel → Step
wait_for_child status_ptr k = do
  pcb ← deref (k.pcbs k.curr)
  elim pcb.num_children [
    | zero ↦ yields (returned err) k
    | suc n ↦ elim (Fifo.peek pcb.zombie_q) [
      | some z ↦ collect status_ptr k
      | none ↦ blocked_then status_ptr (block_process (wait status_ptr) k)
    ]
  ]

-- `prot == (PROT_READ | PROT_WRITE)`.
abbrev is_read_write : Prot → Bool
is_read_write p = p.read && (p.write && not p.exec)

-- The bits of the entry are read whether it is valid or not.
unfoldable pub kernel_wait : Hardware → ℕ → Kernel → Step
kernel_wait hw status_ptr k = elim (get_address_region hw status_ptr) [
  | none ↦ yields (returned err) k
  | some region ↦
      if region == 1
      then (do
        owner ← deref (k.pcbs k.ptbr1)
        e ← deref (get_elem? owner.r1_table (page_of hw status_ptr - user_base_vpn hw))
        if is_read_write e.prot then wait_for_child status_ptr k else yields (returned err) k)
      else yields (returned err) k
]

-- The state behind a call that collects a zombie.
abbrev pub collected : ℕ → Zombie → List Zombie → Pcb → Kernel → Kernel
collected status_ptr z zs pcb k = record (set_pcb k.curr (record pcb { zombie_q = some zs }) k) {
  stored = (k.curr, status_ptr, z.exit_status) ∷ k.stored;
}

pub collect-oldest :
    (status_ptr : ℕ) (z : Zombie) (zs : List Zombie) (pcb : Pcb) (k : Kernel)
    → k.pcbs k.curr ≡ some pcb
    → pcb.zombie_q ≡ some (z ∷ zs)
    → collect status_ptr k ≡ ok (returned (val z.pid), collected status_ptr z zs pcb k)
unfolding collect
collect-oldest status_ptr z zs pcb k at queue = ground (arith, at, queue)
