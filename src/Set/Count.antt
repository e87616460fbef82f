-- ===== src/Set/Count.antt =====
-- How many items of a bucket satisfy a test, before and after each operation.
use yallnix.Prelude.{
  ℕ, ◌+◌, ◌≡◌, Bool, true, false, Option, none, some, [], ◌∷◌, Status, error, success, arith,
  Bool-cases, inl, inr,
}
use yallnix.Prelude.Int.{ℤ, eq_ℤ}
use yallnix.Set.{Set, insert, remove_loop, remove}

abbrev pub to_nat : Bool → ℕ
to_nat true = 1
to_nat false = 0

module _ {ℓ} {V : Type ℓ} (p : V → Bool) where
  abbrev pub count_nodes : Set V → ℕ
  count_nodes [] = 0
  count_nodes ((k, v) ∷ nodes) = to_nat (p v) + count_nodes nodes

  abbrev pub count_set : Option (Set V) → ℕ
  count_set none = 0
  count_set (some nodes) = count_nodes nodes

  abbrev pub count_item : Option V → ℕ
  count_item none = 0
  count_item (some v) = to_nat (p v)

  count-remove_loop :
      (key k : ℤ) (v : V) (nodes : Set V)
      → count_nodes (remove_loop key (k, v) nodes).1 + count_item (remove_loop key (k, v) nodes).0
        ≡ count_nodes ((k, v) ∷ nodes)
  unfolding remove_loop
  count-remove_loop key k v [] = omega arith
  count-remove_loop key k v ((j, w) ∷ nodes) = elim (Bool-cases (eq_ℤ j key)) [
    | inl hit ↦ rw hit (omega arith)
    | inr miss ↦ rw miss (omega (arith, count-remove_loop key j w nodes))
  ]

  pub count-remove :
      (key : ℤ) (set : Option (Set V))
      → count_set (remove key set).1 + count_item (remove key set).0 ≡ count_set set
  unfolding remove
  count-remove key none = omega arith
  count-remove key (some []) = omega arith
  count-remove key (some ((k, v) ∷ nodes)) = elim (Bool-cases (eq_ℤ k key)) [
    | inl hit ↦ rw hit (omega arith)
    | inr miss ↦ rw miss (count-remove_loop key k v nodes)
  ]

  -- What an insertion adds: the item, if it succeeds.
  abbrev pub added : Option V → Status → ℕ
  added item error = 0
  added item success = count_item item

  pub count-insert :
      (got : Bool) (key : ℤ) (item : Option V) (set : Option (Set V))
      → count_set (insert got key item set).1
        ≡ added item (insert got key item set).0 + count_set set
  unfolding insert
  count-insert got key item none = omega arith
  count-insert got key none (some nodes) = omega arith
  count-insert got key (some v) (some nodes) = ground arith
