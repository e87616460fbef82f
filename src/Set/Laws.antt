-- ===== src/Set/Laws.antt =====
-- The operations of set.c on the partial map that a bucket stands for.
use yallnix.Prelude.{
  ◌≡◌, refl, Bool, true, false, Option, none, some, [], ◌∷◌, error, success, if◌then◌else◌, arith,
  Bool-cases, inl, inr,
}
use yallnix.Prelude.Int.{ℤ, eq_ℤ, eq_ℤ_iff}
use yallnix.Set.{Set, find_loop, insert, find, remove_loop, remove}

module _ {ℓ} {V : Type ℓ} where
  -- Each key occurs once.
  abbrev pub Distinct : Set V → Type ℓ
  Distinct [] = Unit
  Distinct ((k, v) ∷ nodes) = (find_loop k nodes ≡ none) × Distinct nodes

  pub remove_loop_item :
      (key : ℤ) (k : ℤ) (v : V) (nodes : Set V)
      → (eq_ℤ k key ≡ false)
      → ((remove_loop key (k, v) nodes).0 ≡ find_loop key nodes)
  unfolding remove_loop find_loop
  remove_loop_item key k v [] ne = refl
  remove_loop_item key k v ((j, w) ∷ nodes) ne = elim (Bool-cases (eq_ℤ j key)) [
    | inl hit ↦ rw hit
    | inr miss ↦ rw miss (remove_loop_item key j w nodes miss)
  ]

  pub remove_loop-find :
      (key j : ℤ) (k : ℤ) (v : V) (nodes : Set V)
      → (eq_ℤ k key ≡ false)
      → Distinct ((k, v) ∷ nodes)
      → find_loop j (remove_loop key (k, v) nodes).1
        ≡ (if eq_ℤ key j then none else find_loop j ((k, v) ∷ nodes))
  unfolding remove_loop find_loop
  remove_loop-find key j k v [] ne d = ground (arith, eq_ℤ_iff k key, eq_ℤ_iff key j, eq_ℤ_iff k j)
  remove_loop-find key j k v ((i, w) ∷ nodes) ne d = ground (
    arith,
    eq_ℤ_iff k key,
    eq_ℤ_iff key j,
    eq_ℤ_iff k j,
    eq_ℤ_iff i key,
    eq_ℤ_iff i j,
    remove_loop-find key j i w nodes,
    d.1.0,
  )

  remove_loop-Distinct :
      (key : ℤ) (k : ℤ) (v : V) (nodes : Set V)
      → (eq_ℤ k key ≡ false)
      → Distinct ((k, v) ∷ nodes)
      → Distinct (remove_loop key (k, v) nodes).1
  unfolding remove_loop find_loop
  remove_loop-Distinct key k v [] ne d = d
  remove_loop-Distinct key k v ((i, w) ∷ nodes) ne d = elim (Bool-cases (eq_ℤ i key)) [
    | inl hit ↦ rw hit (ground arith, d.1.1)
    | inr miss ↦ rw miss (
      ground (arith, remove_loop-find key k i w nodes miss d.1),
      remove_loop-Distinct key i w nodes miss d.1,
    )
  ]

  -- The bucket was allocated, and holds each key once.
  abbrev pub Holds : Option (Set V) → Type ℓ
  Holds none = Unit {ℓ} × ⊥
  Holds (some nodes) = Distinct nodes

  pub remove_item : (key : ℤ) (set : Option (Set V)) → (remove key set).0 ≡ find key set
  unfolding remove find
  remove_item key none = refl
  remove_item key (some []) = refl
  remove_item key (some ((k, v) ∷ nodes)) = elim (Bool-cases (eq_ℤ k key)) [
    | inl hit ↦ rw hit
    | inr miss ↦ rw miss (remove_loop_item key k v nodes miss)
  ]

  pub find-remove :
      (key j : ℤ) (set : Option (Set V))
      → Holds set
      → find j (remove key set).1 ≡ (if eq_ℤ key j then none else find j set)
  unfolding remove find
  find-remove key j none h = ground arith
  find-remove key j (some []) h = ground arith
  find-remove key j (some ((k, v) ∷ nodes)) h =
      ground
        (arith, eq_ℤ_iff k key, eq_ℤ_iff key j, eq_ℤ_iff k j, remove_loop-find key j k v nodes, h.0)

  pub remove-Holds : (key : ℤ) (set : Option (Set V)) → Holds set → Holds (remove key set).1
  unfolding remove
  remove-Holds key none h = h
  remove-Holds key (some []) h = h
  remove-Holds key (some ((k, v) ∷ nodes)) h = elim (Bool-cases (eq_ℤ k key)) [
    | inl hit ↦ rw hit h.1
    | inr miss ↦ rw miss (remove_loop-Distinct key k v nodes miss h)
  ]

  -- The three outcomes of an insertion.
  pub insert_new :
      (key : ℤ) (v : V) (nodes : Set V)
      → find key (some nodes) ≡ none
      → insert true key (some v) (some nodes) ≡ (success, some ((key, v) ∷ nodes))
  unfolding insert find
  insert_new key v nodes e = ground arith

  pub insert_taken :
      (got : Bool) (key : ℤ) (item : Option V) (w : V) (set : Option (Set V))
      → find key set ≡ some w
      → insert got key item set ≡ (error, set)
  unfolding insert find
  insert_taken got key item w none e = refl
  insert_taken got key none w (some nodes) e = refl
  insert_taken got key (some v) w (some nodes) e = ground arith

  pub insert_no_memory :
      (key : ℤ) (item : Option V) (set : Option (Set V)) → insert false key item set ≡ (error, set)
  unfolding insert
  insert_no_memory key item none = refl
  insert_no_memory key none (some nodes) = refl
  insert_no_memory key (some v) (some nodes) = ground arith

  pub find_nil : (key : ℤ) → find {V = V} key (some []) ≡ none
  unfolding find find_loop
  find_nil key = refl

  pub find_new :
      (key j : ℤ) (v : V) (nodes : Set V)
      → find j (some ((key, v) ∷ nodes)) ≡ (if eq_ℤ key j then some v else find j (some nodes))
  unfolding find find_loop
  find_new key j v nodes = refl

  pub new-Holds :
      (key : ℤ) (v : V) (nodes : Set V)
      → Holds (some nodes)
      → find key (some nodes) ≡ none
      → Holds (some ((key, v) ∷ nodes))
  unfolding find
  new-Holds key v nodes h e = (e, h)

  pub insert-Holds :
      (got : Bool) (key : ℤ) (item : Option V) (set : Option (Set V))
      → Holds set
      → Holds (insert got key item set).1
  unfolding insert
  insert-Holds got key item none h = h
  insert-Holds got key none (some nodes) h = h
  insert-Holds got key (some v) (some nodes) h = ground (arith, h)

  pub allocated : (set : Option (Set V)) → Holds set → (nodes : Set V) × (set ≡ some nodes)
  allocated none h = absurd h.1
  allocated (some nodes) h = (nodes, refl)
