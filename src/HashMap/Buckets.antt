-- ===== src/HashMap/Buckets.antt =====
-- The array of buckets: what is at an index, and what one write changes.
use yallnix.Prelude.{
  ℕ, zero, suc, ◌%◌, ◌<◌, ◌≡◌, ◌≢◌, refl, Option, some, List, [], ◌∷◌, ok, fault, get_elem?, set,
  length, arith, get_elem?_of_lt,
}
use yallnix.Prelude.Int.{ℤ, pos, negsuc}
use yallnix.Set.{Set}
use yallnix.Set.Laws.{Holds}
use yallnix.HashMap.{HashMap, slot, locate}

module _ {ℓ} {V : Type ℓ} where
  abbrev pub AllHold : List (Option (Set V)) → Type ℓ
  AllHold [] = Unit
  AllHold (bucket ∷ sets) = Holds bucket × AllHold sets

  -- The array has the size that the map claims, not zero, and each bucket has distinct keys.
  pub record IsValid (hm : HashMap V) : Type ℓ where
    pub sized : length hm.sets ≡ hm.size
    pub nonempty : 0 < hm.size
    pub hold : AllHold hm.sets

  pub AllHold-get :
      (sets : List (Option (Set V))) (i : ℕ) (b : Option (Set V))
      → AllHold sets
      → get_elem? sets i ≡ some b
      → Holds b
  AllHold-get [] i b h e = cc
  AllHold-get (x ∷ sets) zero b h e = subst-Holds h.0 e
    where
      subst-Holds : Holds x → some x ≡ some b → Holds b
      subst-Holds hx e' = ground arith
  AllHold-get (x ∷ sets) (suc i) b h e = AllHold-get sets i b h.1 e

  pub AllHold-set :
      (sets : List (Option (Set V))) (i : ℕ) (b : Option (Set V))
      → AllHold sets
      → Holds b
      → AllHold (set sets i b)
  AllHold-set [] i b h hb = h
  AllHold-set (x ∷ sets) zero b h hb = (hb, h.1)
  AllHold-set (x ∷ sets) (suc i) b h hb = (h.0, AllHold-set sets i b h.1 hb)

-- A key that C can index the array with.
abbrev pub Fits : ℤ → ℕ → Type 0
Fits (pos k) n = Unit {0}
Fits (negsuc k) n = suc k % n ≡ 0

-- Its index.
abbrev pub index : ℤ → ℕ → ℕ
index (pos k) n = k % n
index (negsuc k) n = 0

pub slot-index : (key : ℤ) (n : ℕ) → 0 < n → Fits key n → slot key n ≡ ok (index key n)
unfolding slot
slot-index (pos k) zero lt f = absurd (omega arith)
slot-index (pos k) (suc n) lt f = refl
slot-index (negsuc k) zero lt f = absurd (omega arith)
slot-index (negsuc k) (suc n) lt f = ground arith

pub index-lt : (key : ℤ) (n : ℕ) → 0 < n → index key n < n
index-lt (pos k) n lt = grind arith
index-lt (negsuc k) n lt = lt

-- A negative key that the size, which is not zero, does not divide reads outside of the array of
-- buckets.
pub slot-fault : (k n : ℕ) → 0 < n → suc k % n ≢ 0 → slot (negsuc k) n ≡ fault
unfolding slot
slot-fault k zero lt ne = absurd (omega arith)
slot-fault k (suc n) lt ne = ground arith

module _ {ℓ} {V : Type ℓ} where
  pub locate_lem :
      (key : ℤ) (hm : HashMap V)
      → IsValid hm
      → Fits key hm.size
      → (b : Option (Set V)) × (locate key hm ≡ ok (index key hm.size, b))
        × (get_elem? hm.sets (index key hm.size) ≡ some b)
        × Holds b
  unfolding locate
  locate_lem key hm v f =
      let lt : index key hm.size < length hm.sets =
        omega (arith, index-lt key hm.size v.nonempty, v.sized) in
      let (b, e) = get_elem?_of_lt hm.sets (index key hm.size) lt in
      (
        b,
        rw (slot-index key hm.size v.nonempty f, e),
        e,
        AllHold-get hm.sets (index key hm.size) b v.hold e,
      )
