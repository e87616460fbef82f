-- ===== src/HashMap/New.antt =====
-- `HashMap_new` of HashMap.c.
use yallnix.Prelude.{
  ℕ, zero, suc, ◌+◌, ◌<◌, ◌≡◌, refl, ap, Bool, true, none, some, ok, get_elem?, length,
}
use yallnix.Prelude.Int.{ℤ}
use yallnix.Set
use yallnix.Set.Laws.{find_nil}
use yallnix.HashMap.{HashMap, new_sets, new}
use yallnix.HashMap.Buckets.{IsValid, AllHold, index}
use yallnix.HashMap.Laws.{bucket_find, view}

new_sets-AllHold {ℓ} :
    (V : Type ℓ) (n i : ℕ) (got : ℕ → Bool)
    → ((j : ℕ) → got j ≡ true)
    → AllHold (new_sets {V = V} n got i) × (length (new_sets {V = V} n got i) ≡ n)
unfolding new_sets Set.new
new_sets-AllHold V zero i got all = (tt, refl)
new_sets-AllHold V (suc n) i got all = rw (all i) (
  ((tt, (new_sets-AllHold V n (i + 1) got all).0)),
  ap suc (new_sets-AllHold V n (i + 1) got all).1,
)

module _ {ℓ} {V : Type ℓ} where
  bucket_find-new :
      (key : ℤ) (n i j : ℕ) (got : ℕ → Bool)
      → ((j : ℕ) → got j ≡ true)
      → bucket_find key (get_elem? (new_sets {V = V} n got i) j) ≡ none
  unfolding new_sets Set.new
  bucket_find-new key zero i j got all = refl
  bucket_find-new key (suc n) i zero got all = rw (all i) (find_nil key)
  bucket_find-new key (suc n) i (suc j) got all = bucket_find-new key n (i + 1) j got all

  -- With memory for the map, the array and every bucket, `HashMap_new` of a positive size makes a
  -- valid map of that size that holds nothing.
  pub new-view :
      (n : ℕ) (got : ℕ → Bool)
      → 0 < n
      → ((j : ℕ) → got j ≡ true)
      → (hm : HashMap V) × (new n true true got ≡ ok (some hm))
        × IsValid hm
        × (hm.size ≡ n)
        × ((key : ℤ) → view hm key ≡ none)
  unfolding new
  new-view n got lt all = (
    record { size = n; sets = new_sets n got 0 },
    refl,
    record {
      sized = (new_sets-AllHold V n 0 got all).1;
      nonempty = lt;
      hold = (new_sets-AllHold V n 0 got all).0;
    },
    refl,
    λ key. bucket_find-new key n 0 (index key n) got all,
  )
