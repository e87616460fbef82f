-- ===== src/Scheduler/Exit/Orphans.antt =====
-- The loop of `exitProcess` of Scheduler.c that makes orphans of the children.
use yallnix.Prelude.{
  ◌≡◌, refl, sym, ap, ◌∙◌, Option, none, some, [], ◌∷◌, ok, Ptr, ◌==◌, arith, ==_iff, Bool-cases,
  inl, inr, ◌⊎◌,
}
use yallnix.Prelude.Int.{ℤ}
use yallnix.Set.{Set, iterate_loop}
use yallnix.HashMap.{HashMap}
use yallnix.HashMap
use yallnix.HashMap.Entries.{all_nodes, iterate-nodes}
use yallnix.Kernel.{Kernel, Pcb, set_pcb}
use yallnix.Scheduler.Exit.{remove_parent}

-- Every process that the nodes hold is there.
abbrev pub AllAlive : Set Ptr → Kernel → Type 0
AllAlive [] k = Unit
AllAlive ((pid, x) ∷ nodes) k = ((b : Pcb) × (k.pcbs x ≡ some b)) × AllAlive nodes k

-- The children that a process has, if any, are there.
abbrev pub ChildrenAlive : Option (HashMap Ptr) → Kernel → Type 0
ChildrenAlive none k = Unit
ChildrenAlive (some hm) k = AllAlive (all_nodes hm.sets) k

-- The parent of a process is as before or gone.
abbrev pub OldParent : Option Ptr → Option Ptr → Type 0
OldParent old o = (o ≡ none) ⊎ (o ≡ old)

OldParent-trans : (a b c : Option Ptr) → OldParent a b → OldParent b c → OldParent a c
OldParent-trans a b c h (inl e) = inl e
OldParent-trans a b c (inl d) (inr e) = inl (e ∙ d)
OldParent-trans a b c (inr d) (inr e) = inr (e ∙ d)

-- Every block is there as before, but for its parent, and nothing else has changed.
pub record Orphaned (k k' : Kernel) : Type 0 where
  pub blocks :
      (x : Ptr) (b : Pcb)
      → k.pcbs x ≡ some b
      → (o : Option Ptr) × OldParent b.parent o × (k'.pcbs x ≡ some (record b { parent = o }))
  pub rest : k' ≡ record k { pcbs = k'.pcbs }

Orphaned-one :
    (x : Ptr) (b : Pcb) (k : Kernel)
    → k.pcbs x ≡ some b
    → Orphaned k (set_pcb x (record b { parent = none }) k)
Orphaned-one x b k at = record {
  blocks = λ y c e. elim (Bool-cases (y == x)) [
    | inl same ↦
        let one : some b ≡ some c = sym at ∙ ap k.pcbs (sym ((==_iff y x).0 same)) ∙ e in
        let block : b ≡ c = cc in
        (none, inl refl, rw same (ap (λ (z : Pcb). some (record z { parent = none })) block))
    | inr other ↦ (c.parent, inr refl, rw other e)
  ];
  rest = refl;
}

-- Every process that is there in the one state is there in the other.
abbrev pub StayAlive : Kernel → Kernel → Type 0
StayAlive k k' = (x : Ptr) (b : Pcb) → k.pcbs x ≡ some b → (b' : Pcb) × (k'.pcbs x ≡ some b')

AllAlive-stay :
    (nodes : Set Ptr) (k k' : Kernel) → StayAlive k k' → AllAlive nodes k → AllAlive nodes k'
AllAlive-stay [] k k' o a = tt
AllAlive-stay ((pid, x) ∷ nodes) k k' o ((b, e), a) = (o x b e, AllAlive-stay nodes k k' o a)

pub ChildrenAlive-stay :
    (m : Option (HashMap Ptr)) (k k' : Kernel)
    → StayAlive k k'
    → ChildrenAlive m k
    → ChildrenAlive m k'
ChildrenAlive-stay none k k' o a = tt
ChildrenAlive-stay (some hm) k k' o a = AllAlive-stay (all_nodes hm.sets) k k' o a

Orphaned-trans : (k k₁ k' : Kernel) → Orphaned k k₁ → Orphaned k₁ k' → Orphaned k k'
Orphaned-trans k k₁ k' o o' = record {
  blocks = λ x b e.
      let (p, h, f) = o.blocks x b e in
      let (p', h', f') = o'.blocks x (record b { parent = p }) f in
      (p', OldParent-trans b.parent p p' h h', f');
  rest = o'.rest ∙ ap (λ (z : Kernel). record z { pcbs = k'.pcbs }) o.rest;
}

pub remove_parent-alive :
    (pid : ℤ) (x : Ptr) (b : Pcb) (k : Kernel)
    → k.pcbs x ≡ some b
    → remove_parent pid x (ok k) ≡ ok (set_pcb x (record b { parent = none }) k)
unfolding remove_parent
remove_parent-alive pid x b k e = ground (arith, e)

orphans-Orphaned :
    (nodes : Set Ptr) (k : Kernel)
    → AllAlive nodes k
    → (k' : Kernel) × (iterate_loop remove_parent nodes (ok k) ≡ ok k') × Orphaned k k'
unfolding iterate_loop
orphans-Orphaned [] k a =
    (k, refl, record { blocks = λ x b e. (b.parent, inr refl, e); rest = refl })
orphans-Orphaned ((pid, x) ∷ nodes) k ((b, e), a) =
    let k₁ : Kernel = set_pcb x (record b { parent = none }) k in
    let o : Orphaned k k₁ = Orphaned-one x b k e in
    let (k', run, o') =
      orphans-Orphaned nodes k₁
        (AllAlive-stay nodes k k₁ (λ y c f. let (p, h, g) = o.blocks y c f in (_, g)) a) in
    (
      k',
      ap (λ z. iterate_loop remove_parent nodes z) (remove_parent-alive pid x b k e) ∙ run,
      Orphaned-trans k k₁ k' o o',
    )

-- The children of a process are visited without a fault where they are there.
pub children-Orphaned :
    (m : Option (HashMap Ptr)) (k : Kernel)
    → ChildrenAlive m k
    → (k' : Kernel) × (HashMap.iterate (some remove_parent) m (ok k) ≡ ok k') × Orphaned k k'
unfolding HashMap.iterate
children-Orphaned none k a =
    (k, refl, record { blocks = λ x b e. (b.parent, inr refl, e); rest = refl })
children-Orphaned (some hm) k a =
    let (k', run, o) = orphans-Orphaned (all_nodes hm.sets) k a in
    (k', iterate-nodes remove_parent hm (ok k) ∙ run, o)
