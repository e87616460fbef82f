-- ===== src/Set.antt =====
-- GeneralDataStructures/HashMap/set.c: the nodes of one bucket, from the head on, as a list of their
-- keys and items. A `set_t *` is an Option of that list, and a `void *item` an Option of a value.
-- `got` says whether `malloc` returned memory.
pub mod Laws
pub mod Count
use yallnix.Prelude.{
  ℕ, Bool, true, false, Option, none, some, List, [], ◌∷◌, Status, error, success, if◌then◌else◌,
}
use yallnix.Prelude.Int.{ℤ, eq_ℤ}

abbrev pub Set {ℓ} : Type ℓ → Type ℓ
Set V = List (ℤ × V)

module _ {ℓ} {V : Type ℓ} where
  unfoldable pub new : Bool → Option (Set V)
  new got = if got then some [] else none

  -- The loop that looks for the key, of `set_find` and of `set_insert`.
  unfoldable pub find_loop : ℤ → Set V → Option V
  find_loop key [] = none
  find_loop key ((k, v) ∷ nodes) = if eq_ℤ k key then some v else find_loop key nodes

  abbrev is_some : Option V → Bool
  is_some none = false
  is_some (some v) = true

  unfoldable pub insert : Bool → ℤ → Option V → Option (Set V) → Status × Option (Set V)
  insert got key item none = (error, none)
  insert got key none (some nodes) = (error, some nodes)
  insert got key (some v) (some nodes) =
      if is_some (find_loop key nodes)
      then (error, some nodes)
      else if got
      then (success, some ((key, v) ∷ nodes))
      else (error, some nodes)

  unfoldable pub find : ℤ → Option (Set V) → Option V
  unfolding find_loop
  find key none = none
  find key (some nodes) = find_loop key nodes

  -- The walk behind the head: `node` is `currNode`, and the list is what follows it.
  unfoldable pub remove_loop : ℤ → ℤ × V → Set V → Option V × Set V
  remove_loop key node [] = (none, node ∷ [])
  remove_loop key node ((k, v) ∷ nodes) =
      let (item, rest) = remove_loop key (k, v) nodes in
      if eq_ℤ k key then (some v, node ∷ nodes) else (item, node ∷ rest)

  unfoldable pub remove : ℤ → Option (Set V) → Option V × Option (Set V)
  unfolding remove_loop
  remove key none = (none, none)
  remove key (some []) = (none, some [])
  remove key (some ((k, v) ∷ nodes)) =
      let (item, rest) = remove_loop key (k, v) nodes in
      if eq_ℤ k key then (some v, some nodes) else (item, some rest)

  -- `itemfunc` works on a state; it may remove the node that it is called on, and no other.
  unfoldable pub iterate_loop {κ} : {S : Type κ} → (ℤ → V → S → S) → Set V → S → S
  iterate_loop itemfunc [] s = s
  iterate_loop itemfunc ((k, v) ∷ nodes) s = iterate_loop itemfunc nodes (itemfunc k v s)

  unfoldable pub iterate {κ} : {S : Type κ} → Option (ℤ → V → S → S) → Option (Set V) → S → S
  unfolding iterate_loop
  iterate itemfunc none s = s
  iterate none (some nodes) s = s
  iterate (some itemfunc) (some nodes) s = iterate_loop itemfunc nodes s

  -- The items that `itemdelete` is called with, in order; the nodes and the set are freed.
  delete_loop : Bool → Set V → List V
  delete_loop deletes [] = []
  delete_loop deletes ((k, v) ∷ nodes) =
      let rest = delete_loop deletes nodes in if deletes then v ∷ rest else rest

  pub delete : Bool → Option (Set V) → List V
  unfolding delete_loop
  delete deletes none = []
  delete deletes (some nodes) = delete_loop deletes nodes
