-- ===== src/Scheduler/Clock/Round.antt =====
-- The loop of `tickDownSleepers` of Scheduler.c over the processes that sleep.
use yallnix.Prelude.{
  ℕ, ◌≡◌, ◌≢◌, refl, sym, ap, ◌∙◌, Bool, false, Option, none, some, List, [], ◌∷◌, ◌++◌, ok, Ptr,
  ◌==◌, if◌then◌else◌, arith, Bool-cases, inl, inr, append-nil, append_assoc, subst,
}
use yallnix.Prelude.Int.{ℤ, eq_ℤ, eq_ℤ_iff, eq_ℤ_refl}
use yallnix.Set.{Set, find_loop, iterate_loop}
use yallnix.Set.Laws.{Distinct}
use yallnix.HashMap.{HashMap}
use yallnix.HashMap.Laws.{view}
use yallnix.Kernel.{Kernel, Pcb}
use yallnix.Scheduler.Places.{places}
use yallnix.Scheduler.Clock.{tick_down_sleeper}
use yallnix.Scheduler.Clock.Sleepers.{
  ticked, is_due, Queues, Owned, woken_one, Stepped, tick_down_sleeper-Stepped,
}

-- The processes that wake, in the order of the nodes.
abbrev pub woken : (Ptr → Option Pcb) → Set Ptr → List Ptr
woken pcbs [] = []
woken pcbs ((key, p) ∷ l) = woken_one (pcbs p) p ++ woken pcbs l

abbrev pub leaves : (Ptr → Option Pcb) → Option Ptr → Bool
leaves pcbs none = false
leaves pcbs (some p) = is_due (pcbs p)

pub record Round (hm : HashMap Ptr) (q : List Ptr) (k : Kernel) (l : Set Ptr) (k' : Kernel)
    : Type 0 where
  pub map : HashMap Ptr
  pub queues : Queues map (q ++ woken k.pcbs l) k'
  pub views : (j : ℤ) → view map j ≡ (if leaves k.pcbs (find_loop j l) then none else view hm j)
  pub counted : (j : ℤ) (p : Ptr) → find_loop j l ≡ some p → k'.pcbs p ≡ ticked (k.pcbs p)
  pub others : (p : Ptr) → ((j : ℤ) → find_loop j l ≢ some p) → k'.pcbs p ≡ k.pcbs p
  pub placed : (p : Ptr) → places p k' ≡ places p k

abbrev pub AllOwned : HashMap Ptr → (Ptr → Option Pcb) → Set Ptr → Type 0
AllOwned hm pcbs l =
    (j : ℤ) (p : Ptr) → find_loop j l ≡ some p → (view hm j ≡ some p) × Owned pcbs j p

some-ne-none {ℓ} : {A : Type ℓ} {a : A} → none ≡ some a → ⊥
some-ne-none e = cc

other_key :
    (key j : ℤ) (p : Ptr) (l : Set Ptr)
    → find_loop key l ≡ none
    → find_loop j l ≡ some p
    → eq_ℤ key j ≡ false
other_key key j p l d e = elim (Bool-cases (eq_ℤ key j)) [
  | inl hit ↦ absurd (some-ne-none (sym d ∙ ap (λ z. find_loop z l) ((eq_ℤ_iff key j).0 hit) ∙ e))
  | inr miss ↦ miss
]

other_process :
    (pcbs : Ptr → Option Pcb) (key j : ℤ) (p r : Ptr)
    → Owned pcbs key p
    → Owned pcbs j r
    → eq_ℤ key j ≡ false
    → (r == p) ≡ false
other_process pcbs key j p r o o' miss = elim (Bool-cases (r == p)) [
  | inl same ↦
      let eq : r ≡ p = ground arith in
      let one : some o'.pcb ≡ some o.pcb = sym o'.alive ∙ ap pcbs eq ∙ o.alive in
      let keys : key ≡ j = cc in ground (arith, eq_ℤ_iff key j)
  | inr other ↦ other
]

woken-same :
    (f g : Ptr → Option Pcb) (l : Set Ptr)
    → Distinct l
    → ((j : ℤ) (p : Ptr) → find_loop j l ≡ some p → f p ≡ g p)
    → woken f l ≡ woken g l
unfolding find_loop
woken-same f g [] d h = refl
woken-same f g ((key, p) ∷ l) d h =
    rw
      (
        h key p (rw (eq_ℤ_refl key) refl),
        woken-same f g l d.1 (λ j r e. h j r (rw (other_key key j r l d.0 e) e)),
      )
      refl

module _ (hm : HashMap Ptr) (q : List Ptr) (k k₁ : Kernel) (key : ℤ) (p : Ptr) (l : Set Ptr)
    (d : Distinct ((key, p) ∷ l)) (o : Owned k.pcbs key p) (r : Stepped hm q k key p k₁)
    (own : (j : ℤ) (x : Ptr)
      → find_loop j l ≡ some x
      → (view hm j ≡ some x) × Owned k.pcbs j x) where
  rest_same : (j : ℤ) (x : Ptr) → find_loop j l ≡ some x → k₁.pcbs x ≡ k.pcbs x
  rest_same j x e =
      let miss = other_process k.pcbs key j p x o (own j x e).1 (other_key key j x l d.0 e) in
      ap (λ f. f x) r.pcbs ∙ rw miss refl

  rest_owned : AllOwned r.map k₁.pcbs l
  rest_owned j x e =
      let old = (own j x e).1 in
      (
        r.views j ∙ rw (other_key key j x l d.0 e) (own j x e).0,
        record { pcb = old.pcb; alive = rest_same j x e ∙ old.alive; number = old.number },
      )

  leaves-same : (j : ℤ) (f : Option Ptr) → find_loop j l ≡ f → leaves k₁.pcbs f ≡ leaves k.pcbs f
  leaves-same j none e = refl
  leaves-same j (some x) e = ap is_due (rest_same j x e)

  -- No other key stands for the process.
  rest-other : (j : ℤ) → find_loop j l ≢ some p
  rest-other j e = self (other_process k.pcbs key j p p o (own j p e).1 (other_key key j p l d.0 e))
    where
      self : (p == p) ≢ false
      self h = ground arith

  Round-views :
      (m : HashMap Ptr) (j : ℤ)
      → view m j ≡ (if leaves k₁.pcbs (find_loop j l) then none else view r.map j)
      → view m j ≡ (if leaves k.pcbs (find_loop j ((key, p) ∷ l)) then none else view hm j)
  unfolding find_loop
  Round-views m j e = elim (Bool-cases (eq_ℤ key j)) [
    | inl hit ↦
        let gone : find_loop j l ≡ none =
          ap (λ z. find_loop z l) (sym ((eq_ℤ_iff key j).0 hit)) ∙ d.0 in
        ground (arith, e, gone, r.views j, hit)
    | inr miss ↦ ground (arith, e, leaves-same j (find_loop j l) refl, r.views j, miss)
  ]

  Round-counted :
      (k' : Kernel) (j : ℤ) (x : Ptr)
      → Round r.map (q ++ woken_one (k.pcbs p) p) k₁ l k'
      → find_loop j ((key, p) ∷ l) ≡ some x
      → k'.pcbs x ≡ ticked (k.pcbs x)
  unfolding find_loop
  Round-counted k' j x r' e = elim (Bool-cases (eq_ℤ key j)) [
    | inl hit ↦
        let eq : p ≡ x = ground (arith, rw hit at e) in
        let last : k'.pcbs p ≡ k₁.pcbs p = r'.others p rest-other in
        let own_tick : k₁.pcbs p ≡ ticked (k.pcbs p) = ground (arith, ap (λ f. f p) r.pcbs) in
        subst (λ z. k'.pcbs z ≡ ticked (k.pcbs z)) eq (last ∙ own_tick)
    | inr miss ↦
        let e' : find_loop j l ≡ some x = rw miss at e in
        r'.counted j x e' ∙ ap ticked (rest_same j x e')
  ]

  Round-others :
      (k' : Kernel) (x : Ptr)
      → Round r.map (q ++ woken_one (k.pcbs p) p) k₁ l k'
      → ((j : ℤ) → find_loop j ((key, p) ∷ l) ≢ some x)
      → k'.pcbs x ≡ k.pcbs x
  unfolding find_loop
  Round-others k' x r' h = elim (Bool-cases (x == p)) [
    | inl same ↦ let eq : p ≡ x = ground arith in absurd (h key (rw (eq_ℤ_refl key) (ap some eq)))
    | inr other ↦
        r'.others x (λ j e. h j (rw (other_key key j x l d.0 e) e))
        ∙ ap (λ f. f x) r.pcbs
        ∙ rw other refl
  ]

  Round-cons :
      (k' : Kernel)
      → Round r.map (q ++ woken_one (k.pcbs p) p) k₁ l k'
      → Round hm q k ((key, p) ∷ l) k'
  unfolding find_loop
  Round-cons k' r' = record {
    map = r'.map;
    queues =
        subst (λ z. Queues r'.map z k')
          (append_assoc q (woken_one (k.pcbs p) p) (woken k₁.pcbs l)
            ∙ ap (λ z. q ++ (woken_one (k.pcbs p) p ++ z))
                (woken-same k₁.pcbs k.pcbs l d.1 rest_same))
          r'.queues;
    views = λ j. Round-views r'.map j (r'.views j);
    counted = λ j x e. Round-counted k' j x r' e;
    others = λ x h. Round-others k' x r' h;
    placed = λ x. r'.placed x ∙ r.placed x;
  }

-- Every process of the nodes is counted down; the due ones leave the map and are the youngest ready
-- ones, in the order of the nodes.
pub tick_down-Round :
    (hm : HashMap Ptr) (q : List Ptr) (k : Kernel) (l : Set Ptr) (c : ℕ)
    → Queues hm q k
    → Distinct l
    → AllOwned hm k.pcbs l
    → (k' : Kernel) × (iterate_loop tick_down_sleeper l (ok (c, k)) ≡ ok (c, k'))
      × Round hm q k l k'
unfolding iterate_loop find_loop
tick_down-Round hm q k [] c s d own = (
  k,
  refl,
  record {
    map = hm;
    queues = subst (λ z. Queues hm z k) (sym (append-nil q)) s;
    views = λ j. refl;
    counted = λ j p e. cc;
    others = λ p h. refl;
    placed = λ p. refl;
  },
)
tick_down-Round hm q k ((key, p) ∷ l) c s d own =
    let (at, o) = own key p (rw (eq_ℤ_refl key) refl) in
    let (k₁, run₁, r₁) = tick_down_sleeper-Stepped hm q k key p c s at o in
    let own' : AllOwned hm k.pcbs l = λ j x e. own j x (rw (other_key key j x l d.0 e) e) in
    let (k', run', r') =
      tick_down-Round r₁.map (q ++ woken_one (k.pcbs p) p) k₁ l c r₁.queues d.1
        (rest_owned hm q k k₁ key p l d o r₁ own') in
    (k', rw run₁ run', Round-cons hm q k k₁ key p l d o r₁ own' k' r')
