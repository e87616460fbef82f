-- ===== src/Scheduler/Exit/Dangling.antt =====
-- `exitProcess` of Scheduler.c in a process that has a child which has exited before.
use yallnix.Prelude.{
  ◌≡◌, ◌≢◌, refl, ap, ◌∙◌, none, some, [], ◌∷◌, ok, fault, Ptr, ◌==◌, arith, ==_iff, Bool-cases,
  Option-cases, inl, inr,
}
use yallnix.Prelude.Int.{ℤ, pos, eq_ℤ}
use yallnix.Set.{Set, iterate_loop, find_loop}
use yallnix.HashMap.{HashMap}
use yallnix.HashMap
use yallnix.HashMap.Laws.{view}
use yallnix.HashMap.Entries.{all_nodes, iterate-nodes, find-all_nodes, AllHome}
use yallnix.Kernel.{Kernel, Pcb, set_pcb, switched}
use yallnix.Scheduler.Exit.{remove_parent, exit_process, tell_parent}
use yallnix.Scheduler.Exit.Telling.{Waiting}
use yallnix.Scheduler.Exit.Handover.{exit_process-Handed}
use yallnix.Scheduler.Exit.Orphans.{ChildrenAlive, remove_parent-alive}

remove_parent-gone :
    (pid : ℤ) (x : Ptr) (k : Kernel) → k.pcbs x ≡ none → remove_parent pid x (ok k) ≡ fault
unfolding remove_parent
remove_parent-gone pid x k e = ground (arith, e)

stays_faulty : (nodes : Set Ptr) → iterate_loop remove_parent nodes fault ≡ fault
unfolding iterate_loop remove_parent
stays_faulty [] = refl
stays_faulty ((pid, x) ∷ nodes) = stays_faulty nodes

-- The block of `y` is there, and that of `x` is not.
still_gone :
    (x y : Ptr) (b c : Pcb) (k : Kernel)
    → k.pcbs x ≡ none
    → k.pcbs y ≡ some b
    → (set_pcb y c k).pcbs x ≡ none
still_gone x y b c k gone at = elim (Bool-cases (x == y)) [
  | inl same ↦ cc (ap k.pcbs ((==_iff x y).0 same), gone, at)
  | inr miss ↦ rw miss gone
]

further :
    (j pid : ℤ) (x y : Ptr) (b : Pcb) (nodes : Set Ptr) (k : Kernel)
    → find_loop j ((pid, y) ∷ nodes) ≡ some x
    → k.pcbs x ≡ none
    → k.pcbs y ≡ some b
    → find_loop j nodes ≡ some x
unfolding find_loop
further j pid x y b nodes k e gone at = elim (Bool-cases (eq_ℤ pid j)) [
  | inl same ↦
      let one : some y ≡ some x = rw same at e in let eq : y ≡ x = cc in cc (ap k.pcbs eq, gone, at)
  | inr miss ↦ rw miss at e
]

visit-gone :
    (j : ℤ) (x : Ptr) (nodes : Set Ptr) (k : Kernel)
    → find_loop j nodes ≡ some x
    → k.pcbs x ≡ none
    → iterate_loop remove_parent nodes (ok k) ≡ fault
unfolding iterate_loop find_loop
visit-gone j x [] k e gone = cc
visit-gone j x ((pid, y) ∷ nodes) k e gone = elim (Option-cases (k.pcbs y)) [
  | inl out ↦
      ap (λ z. iterate_loop remove_parent nodes z) (remove_parent-gone pid y k out)
      ∙ stays_faulty nodes
  | inr (b, at) ↦
      ap (λ z. iterate_loop remove_parent nodes z) (remove_parent-alive pid y b k at)
      ∙ visit-gone j x nodes _ (further j pid x y b nodes k e gone at)
          (still_gone x y b (record b { parent = none }) k gone at)
]

exit_process-dangling :
    (status j : ℤ) (k : Kernel) (pcb : Pcb) (hm : HashMap Ptr) (x : Ptr)
    → k.pcbs k.curr ≡ some pcb
    → pcb.parent ≡ none
    → pcb.children ≡ some hm
    → AllHome hm.size 0 hm.sets
    → view hm j ≡ some x
    → k.pcbs x ≡ none
    → exit_process status k ≡ fault
unfolding exit_process tell_parent
exit_process-dangling status j k pcb hm x at orphan kids home there gone =
    let visit : HashMap.iterate (some remove_parent) pcb.children (ok k) ≡ fault =
      ap (λ m. HashMap.iterate (some remove_parent) m (ok k)) kids
      ∙ iterate-nodes remove_parent hm (ok k)
      ∙ visit-gone j x (all_nodes hm.sets) k (find-all_nodes j hm home ∙ there) gone in
    ground (arith, at, orphan, visit)

module _ (status status' : ℤ) (k : Kernel) (pcb : Pcb) (parent : Ptr) (par : Pcb) (hm : HashMap Ptr)
    (w : Waiting k parent par []) (at : k.pcbs k.curr ≡ some pcb) (child : pcb.parent ≡ some parent)
    (other : parent ≢ k.curr) (kids : ChildrenAlive pcb.children k) (orphan : par.parent ≡ none)
    (family : par.children ≡ some hm) (home : AllHome hm.size 0 hm.sets)
    (known : view hm (pos pcb.pid) ≡ some k.curr) where
  -- `exitProcess` in a child that its parent has in its map of children, where the parent is
  -- another process, has no parent itself, and is blocked with a saved context while no process is
  -- ready, with valid maps, memory and every child of the process there: it switches to the
  -- parent, and when the parent then exits, `exitProcess` faults, since the freed child is still
  -- in that map.
  pub exit_process-twice :
      (k' : Kernel) × (exit_process status k ≡ ok (switched, k'))
      × (k'.curr ≡ parent)
      × (exit_process status' k' ≡ fault)
  exit_process-twice =
      let (k', run, h) =
        exit_process-Handed status k pcb parent par [] parent [] par w at child other kids refl
          w.alive other in
      let none_still : h.grandparent ≡ none = elim h.old [ inl e ↦ e | inr e ↦ e ∙ orphan ] in
      (
        k',
        run,
        h.runs,
        exit_process-dangling status' (pos pcb.pid) k' _ hm k.curr (ap k'.pcbs h.runs ∙ h.alive)
            none_still family home known h.gone,
      )
