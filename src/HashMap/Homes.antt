-- ===== src/HashMap/Homes.antt =====
-- A removal from a hash map of HashMap.c leaves every key in the bucket of its index.
use yallnix.Prelude.{
  Bool, Status, ℕ, zero, suc, ◌+◌, ◌≡◌, Option, none, some, List, [], ◌∷◌, get_elem?, set, arith,
  Bool-cases, inl, inr, subst, ok,
}
use yallnix.Prelude.Int.{ℤ, eq_ℤ}
use yallnix.Set.{Set, insert, remove, remove_loop}
use yallnix.HashMap.{HashMap, locate}
use yallnix.HashMap
use yallnix.HashMap.Buckets.{IsValid, Fits, index, locate_lem}
use yallnix.HashMap.Entries.{nodes_of, Keys, Keys-map, AllHome}

module _ {ℓ} {V : Type ℓ} where
  Keys-remove_loop :
      (P : ℤ → Type 0) (key k : ℤ) (v : V) (nodes : Set V)
      → Keys P ((k, v) ∷ nodes)
      → Keys P (remove_loop key (k, v) nodes).1
  unfolding remove_loop
  Keys-remove_loop P key k v [] h = h
  Keys-remove_loop P key k v ((i, w) ∷ nodes) h = elim (Bool-cases (eq_ℤ i key)) [
    | inl hit ↦ rw hit (h.0, h.1.1)
    | inr miss ↦ rw miss (h.0, Keys-remove_loop P key i w nodes h.1)
  ]

  Keys-remove :
      (P : ℤ → Type 0) (key : ℤ) (b : Option (Set V))
      → Keys P (nodes_of b)
      → Keys P (nodes_of (remove key b).1)
  unfolding remove
  Keys-remove P key none h = h
  Keys-remove P key (some []) h = h
  Keys-remove P key (some ((k, v) ∷ nodes)) h = elim (Bool-cases (eq_ℤ k key)) [
    | inl hit ↦ rw hit h.1
    | inr miss ↦ rw miss (Keys-remove_loop P key k v nodes h)
  ]

  AllHome-get :
      (n i d : ℕ) (b : Option (Set V)) (sets : List (Option (Set V)))
      → get_elem? sets d ≡ some b
      → AllHome n i sets
      → Keys (λ k. index k n ≡ i + d) (nodes_of b)
  AllHome-get n i d b [] e h = cc
  AllHome-get n i zero b (x ∷ sets) e h =
      let same : nodes_of x ≡ nodes_of b = ground (arith, e) in
      Keys-map _ _ (nodes_of b) (λ k f. omega (arith, f))
        (subst (Keys (λ k. index k n ≡ i)) same h.0)
  AllHome-get n i (suc d) b (x ∷ sets) e h =
      Keys-map _ _ (nodes_of b) (λ k f. omega (arith, f)) (AllHome-get n (suc i) d b sets e h.1)

  AllHome-set :
      (n i d : ℕ) (b : Option (Set V)) (sets : List (Option (Set V)))
      → Keys (λ k. index k n ≡ i + d) (nodes_of b)
      → AllHome n i sets
      → AllHome n i (set sets d b)
  AllHome-set n i d b [] hb h = h
  AllHome-set n i zero b (x ∷ sets) hb h =
      (Keys-map _ _ (nodes_of b) (λ k f. omega (arith, f)) hb, h.1)
  AllHome-set n i (suc d) b (x ∷ sets) hb h = (
    h.0,
    AllHome-set n (suc i) d b sets (Keys-map _ _ (nodes_of b) (λ k f. omega (arith, f)) hb) h.1,
  )

  put : HashMap V → ℤ → Option (Set V) → HashMap V
  put hm key b = record hm { sets = set hm.sets (index key hm.size) b }

  -- The bucket of the key is replaced by one whose keys have its index.
  put-AllHome :
      (key : ℤ) (hm hm' : HashMap V) (b : Option (Set V))
      → put hm key b ≡ hm'
      → Keys (λ k. index k hm.size ≡ 0 + index key hm.size) (nodes_of b)
      → AllHome hm.size 0 hm.sets
      → AllHome hm'.size 0 hm'.sets
  unfolding put
  put-AllHome key hm hm' b e hb h =
      subst (λ (m : HashMap V). AllHome m.size 0 m.sets) e
        (AllHome-set hm.size 0 (index key hm.size) b hm.sets hb h)

  -- A removal leaves every key in the bucket of its index.
  pub remove-AllHome :
      (key : ℤ) (hm hm' : HashMap V) (item : Option V)
      → IsValid hm
      → Fits key hm.size
      → HashMap.remove key (some hm) ≡ ok (item, some hm')
      → AllHome hm.size 0 hm.sets
      → AllHome hm'.size 0 hm'.sets
  unfolding HashMap.remove put
  remove-AllHome key hm hm' item v f e h =
      let (b, at, get, holds) = locate_lem key hm v f in
      let done : ok ((remove key b).0, some (put hm key (remove key b).1)) ≡ ok (item, some hm') =
        rw at at e in
      put-AllHome key hm hm' (remove key b).1 (ground (arith, done))
        (Keys-remove _ key b (AllHome-get hm.size 0 (index key hm.size) b hm.sets get h)) h

  Keys-insert {κ} :
      (P : ℤ → Type κ) (got : Bool) (key : ℤ) (item : Option V) (b : Option (Set V))
      → P key
      → Keys P (nodes_of b)
      → Keys P (nodes_of (insert got key item b).1)
  unfolding insert
  Keys-insert P got key item none hk h = h
  Keys-insert P got key none (some nodes) hk h = h
  Keys-insert P got key (some v) (some nodes) hk h = ground (arith, hk, h)

  -- An insertion puts its key into the bucket of its index.
  pub insert-AllHome :
      (got : Bool) (key : ℤ) (x : V) (hm hm' : HashMap V) (st : Status)
      → IsValid hm
      → Fits key hm.size
      → HashMap.insert got key (some x) (some hm) ≡ ok (st, some hm')
      → AllHome hm.size 0 hm.sets
      → AllHome hm'.size 0 hm'.sets
  unfolding HashMap.insert put
  insert-AllHome got key x hm hm' st v f e h =
      let (b, at, get, holds) = locate_lem key hm v f in
      let r = insert got key (some x) b in
      let done : ok (r.0, some (put hm key r.1)) ≡ ok (st, some hm') = rw at at e in
      put-AllHome key hm hm' r.1 (ground (arith, done))
        (Keys-insert _ got key (some x) b (omega arith)
          (AllHome-get hm.size 0 (index key hm.size) b hm.sets get h))
        h
