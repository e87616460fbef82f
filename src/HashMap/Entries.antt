-- ===== src/HashMap/Entries.antt =====
-- The nodes of a hash map in the order in which `HashMap_iterate` of HashMap.c visits them.
use yallnix.Prelude.{
  ℕ, zero, suc, ◌+◌, ◌<◌, ◌≡◌, ◌≢◌, refl, Option, none, some, List, [], ◌∷◌, ◌++◌, get_elem?, arith,
  Bool-cases, inl, inr, ◌∙◌, ap, sym,
}
use yallnix.Prelude.Int.{ℤ, eq_ℤ, eq_ℤ_iff}
use yallnix.Set.{Set, iterate_loop, iterate, find_loop, find}
use yallnix.Set.Laws.{Distinct, Holds}
use yallnix.HashMap.{HashMap, iterate_sets, locate}
use yallnix.HashMap
use yallnix.HashMap.Buckets.{AllHold, index}
use yallnix.HashMap.Laws.{bucket_find, view}

module _ {ℓ} {V : Type ℓ} where
  abbrev pub nodes_of : Option (Set V) → Set V
  nodes_of none = []
  nodes_of (some nodes) = nodes

  abbrev pub all_nodes : List (Option (Set V)) → Set V
  all_nodes [] = []
  all_nodes (b ∷ sets) = nodes_of b ++ all_nodes sets

  iterate_loop-append {κ} :
      {S : Type κ} (f : ℤ → V → S → S) (xs ys : Set V) (s : S)
      → iterate_loop f (xs ++ ys) s ≡ iterate_loop f ys (iterate_loop f xs s)
  unfolding iterate_loop
  iterate_loop-append f [] ys s = refl
  iterate_loop-append f ((k, v) ∷ xs) ys s = iterate_loop-append f xs ys (f k v s)

  iterate_sets-nodes {κ} :
      {S : Type κ} (f : ℤ → V → S → S) (sets : List (Option (Set V))) (s : S)
      → iterate_sets f sets s ≡ iterate_loop f (all_nodes sets) s
  unfolding iterate_sets iterate_loop iterate
  iterate_sets-nodes f [] s = refl
  iterate_sets-nodes f (none ∷ sets) s = iterate_sets-nodes f sets s
  iterate_sets-nodes f (some nodes ∷ sets) s =
      iterate_sets-nodes f sets (iterate_loop f nodes s)
      ∙ sym (iterate_loop-append f nodes (all_nodes sets) s)

  pub iterate-nodes {κ} :
      {S : Type κ} (f : ℤ → V → S → S) (hm : HashMap V) (s : S)
      → HashMap.iterate (some f) (some hm) s ≡ iterate_loop f (all_nodes hm.sets) s
  unfolding HashMap.iterate
  iterate-nodes f hm s = iterate_sets-nodes f hm.sets s

  -- Every key of the nodes has the property.
  abbrev pub Keys {κ} : (ℤ → Type κ) → Set V → Type κ
  Keys P [] = Unit
  Keys P ((k, v) ∷ nodes) = P k × Keys P nodes

  pub Keys-map {κ μ} :
      (P : ℤ → Type κ) (Q : ℤ → Type μ) (nodes : Set V)
      → ((k : ℤ) → P k → Q k)
      → Keys P nodes
      → Keys Q nodes
  Keys-map P Q [] f h = tt
  Keys-map P Q ((k, v) ∷ nodes) f h = (f k h.0, Keys-map P Q nodes f h.1)

  -- Each key is in the bucket of its index; `i` is the index of the first bucket.
  abbrev pub AllHome : ℕ → ℕ → List (Option (Set V)) → Type 0
  AllHome n i [] = Unit
  AllHome n i (b ∷ sets) = Keys (λ k. index k n ≡ i) (nodes_of b) × AllHome n (suc i) sets

  abbrev first : Option V → Option V → Option V
  first none b = b
  first (some a) b = some a

  first-none : (a : Option V) → first a none ≡ a
  first-none none = refl
  first-none (some a) = refl

  find_loop-append :
      (j : ℤ) (xs ys : Set V) → find_loop j (xs ++ ys) ≡ first (find_loop j xs) (find_loop j ys)
  unfolding find_loop
  find_loop-append j [] ys = refl
  find_loop-append j ((k, v) ∷ xs) ys = elim (Bool-cases (eq_ℤ k j)) [
    | inl hit ↦ rw hit
    | inr miss ↦ rw miss (find_loop-append j xs ys)
  ]

  absent :
      (n i : ℕ) (j : ℤ) (nodes : Set V)
      → index j n ≢ i
      → Keys (λ k. index k n ≡ i) nodes
      → find_loop j nodes ≡ none
  unfolding find_loop
  absent n i j [] ne h = refl
  absent n i j ((k, v) ∷ nodes) ne h = elim (Bool-cases (eq_ℤ k j)) [
    | inl hit ↦ absurd (ne (ap (λ z. index z n) (sym ((eq_ℤ_iff k j).0 hit)) ∙ h.0))
    | inr miss ↦ rw miss (absent n i j nodes ne h.1)
  ]

  absent_before :
      (n i : ℕ) (j : ℤ) (sets : List (Option (Set V)))
      → index j n < i
      → AllHome n i sets
      → find_loop j (all_nodes sets) ≡ none
  unfolding find_loop
  absent_before n i j [] lt h = refl
  absent_before n i j (b ∷ sets) lt h =
      find_loop-append j (nodes_of b) (all_nodes sets)
      ∙ rw (
        absent n i j (nodes_of b) (λ e. omega (arith, e, lt)) h.0,
        absent_before n (suc i) j sets (omega (arith, lt)) h.1,
      )

  find-nodes : (j : ℤ) (b : Option (Set V)) → find_loop j (nodes_of b) ≡ find j b
  unfolding find find_loop
  find-nodes j none = refl
  find-nodes j (some nodes) = refl

  find_all :
      (n i d : ℕ) (j : ℤ) (sets : List (Option (Set V)))
      → index j n ≡ i + d
      → AllHome n i sets
      → find_loop j (all_nodes sets) ≡ bucket_find j (get_elem? sets d)
  unfolding find_loop
  find_all n i d j [] e h = refl
  find_all n i zero j (b ∷ sets) e h =
      find_loop-append j (nodes_of b) (all_nodes sets)
      ∙ rw (absent_before n (suc i) j sets (omega (arith, e)) h.1)
          (first-none (find_loop j (nodes_of b)) ∙ find-nodes j b)
  find_all n i (suc d) j (b ∷ sets) e h =
      find_loop-append j (nodes_of b) (all_nodes sets)
      ∙ rw (absent n i j (nodes_of b) (λ f. omega (arith, e, f)) h.0)
          (find_all n (suc i) d j sets (omega (arith, e)) h.1)

  -- The visited nodes are the map.
  pub find-all_nodes :
      (j : ℤ) (hm : HashMap V)
      → AllHome hm.size 0 hm.sets
      → find_loop j (all_nodes hm.sets) ≡ view hm j
  find-all_nodes j hm h = find_all hm.size 0 (index j hm.size) j hm.sets (omega arith) h

  Distinct-append :
      (xs ys : Set V)
      → Distinct xs
      → Distinct ys
      → Keys (λ k. find_loop k ys ≡ none) xs
      → Distinct (xs ++ ys)
  Distinct-append [] ys dx dy h = dy
  Distinct-append ((k, v) ∷ xs) ys dx dy h =
      (find_loop-append k xs ys ∙ rw (dx.0, h.0), Distinct-append xs ys dx.1 dy h.1)

  Holds-nodes : (b : Option (Set V)) → Holds b → Distinct (nodes_of b)
  Holds-nodes none h = tt
  Holds-nodes (some nodes) h = h

  -- No key is visited twice.
  pub all_nodes-Distinct :
      (n i : ℕ) (sets : List (Option (Set V)))
      → AllHold sets
      → AllHome n i sets
      → Distinct (all_nodes sets)
  all_nodes-Distinct n i [] d h = tt
  all_nodes-Distinct n i (b ∷ sets) d h =
      Distinct-append (nodes_of b) (all_nodes sets) (Holds-nodes b d.0)
        (all_nodes-Distinct n (suc i) sets d.1 h.1)
        (Keys-map _ _ (nodes_of b) (λ k e. absent_before n (suc i) k sets (omega (arith, e)) h.1)
          h.0)
