-- ===== src/HashMap.antt =====
-- GeneralDataStructures/HashMap/HashMap.c: an array of buckets, indexed by `key % size`. C's
-- remainder has the sign of the key, so a negative key that `size` does not divide reads in front of
-- the array: a fault. A `HashMap_t *` is an Option of the structure. The arguments `got…` say which
-- calls of `malloc` and `calloc` return memory.
pub mod Buckets
pub mod Laws
pub mod New
pub mod Count
pub mod Entries
pub mod Homes
mod Tests
use yallnix.Prelude.{
  ℕ, zero, suc, ◌+◌, ◌%◌, Bool, true, false, Option, none, some, List, [], ◌∷◌, ◌++◌, Run, ok,
  fault, ◌>>=◌, deref, Status, error, success, ◌==◌, if◌then◌else◌, get_elem?, set,
}
use yallnix.Prelude.Int.{ℤ, pos, negsuc}
use yallnix.Set.{Set}
use yallnix.Set

pub record HashMap {ℓ} (V : Type ℓ) : Type ℓ where
  pub size : ℕ
  pub sets : List (Option (Set V))

-- `key % size`, as an index into the array.
unfoldable pub slot : ℤ → ℕ → Run ℕ
slot key zero = fault
slot (pos k) (suc n) = ok (k % suc n)
slot (negsuc k) (suc n) = if suc k % suc n == 0 then ok 0 else fault

module _ {ℓ} {V : Type ℓ} where
  -- The set at the key's index, with that index.
  unfoldable pub locate : ℤ → HashMap V → Run (ℕ × Option (Set V))
  locate key hm = do i ← slot key hm.size; bucket ← deref (get_elem? hm.sets i); ok (i, bucket)

  new_sets : ℕ → (ℕ → Bool) → ℕ → List (Option (Set V))
  unfolding Set.new
  new_sets zero got i = []
  new_sets (suc n) got i = Set.new (got i) ∷ new_sets n got (i + 1)

  -- Only the first allocation is checked: without the array the loop writes through NULL.
  unfoldable pub new : ℕ → Bool → Bool → (ℕ → Bool) → Run (Option (HashMap V))
  unfolding new_sets
  new num_slots got_map got_sets got =
      if got_map
      then (if got_sets
          then ok (some (record { size = num_slots; sets = new_sets num_slots got 0 }))
          else if num_slots == 0
          then ok (some (record { size = 0; sets = [] }))
          else fault)
      else ok none

  unfoldable pub insert :
      Bool → ℤ → Option V → Option (HashMap V) → Run (Status × Option (HashMap V))
  unfolding locate
  insert got key item none = ok (error, none)
  insert got key none (some hm) = ok (error, some hm)
  insert got key (some v) (some hm) = do
    (i, bucket) ← locate key hm
    let r : Status × Option (Set V) = Set.insert got key (some v) bucket
    ok (r.0, some (record hm { sets = set hm.sets i r.1 }))

  unfoldable pub find : ℤ → Option (HashMap V) → Run (Option V)
  unfolding locate
  find key none = ok none
  find key (some hm) = do (i, bucket) ← locate key hm; ok (Set.find key bucket)

  unfoldable pub remove : ℤ → Option (HashMap V) → Run (Option V × Option (HashMap V))
  unfolding locate
  remove key none = ok (none, none)
  remove key (some hm) = do
    (i, bucket) ← locate key hm
    let r : Option V × Option (Set V) = Set.remove key bucket
    ok (r.0, some (record hm { sets = set hm.sets i r.1 }))

  iterate_sets {κ} : {S : Type κ} → (ℤ → V → S → S) → List (Option (Set V)) → S → S
  iterate_sets itemfunc [] s = s
  iterate_sets itemfunc (bucket ∷ sets) s =
      iterate_sets itemfunc sets (Set.iterate (some itemfunc) bucket s)

  unfoldable pub iterate {κ} : {S : Type κ} → Option (ℤ → V → S → S) → Option (HashMap V) → S → S
  unfolding iterate_sets
  iterate itemfunc none s = s
  iterate none (some hm) s = s
  iterate (some itemfunc) (some hm) s = iterate_sets itemfunc hm.sets s

  delete_sets : Bool → List (Option (Set V)) → List V
  delete_sets deletes [] = []
  delete_sets deletes (bucket ∷ sets) = Set.delete deletes bucket ++ delete_sets deletes sets

  -- The items that `itemdelete` is called with.
  pub delete : Bool → Option (HashMap V) → List V
  unfolding delete_sets
  delete deletes none = []
  delete deletes (some hm) = delete_sets deletes hm.sets
