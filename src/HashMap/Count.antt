-- ===== src/HashMap/Count.antt =====
-- How many items of a hash map satisfy a test, before and after each operation.
use yallnix.Prelude.{
  ℕ, zero, suc, ◌+◌, ◌≡◌, Bool, Option, none, some, List, [], ◌∷◌, ok, deref, get_elem?, set, arith,
  Status, >>=-eq-ok, refl, true, false, Bool-cases, inl, inr, ap, sym, ◌∙◌, ok-injective, ◌==◌,
}
use yallnix.Prelude.Int.{ℤ}
use yallnix.Set.{Set}
use yallnix.Set
use yallnix.Set.Count.{count_set, count_item, added, count-insert, count-remove}
use yallnix.HashMap.{HashMap, new_sets, new, slot, locate, insert, remove}

module _ {ℓ} {V : Type ℓ} (p : V → Bool) where
  abbrev count_sets : List (Option (Set V)) → ℕ
  count_sets [] = 0
  count_sets (b ∷ sets) = count_set p b + count_sets sets

  unfoldable pub count_map : Option (HashMap V) → ℕ
  count_map none = 0
  count_map (some hm) = count_sets hm.sets

  count-set :
      (sets : List (Option (Set V))) (i : ℕ) (b b' : Option (Set V))
      → get_elem? sets i ≡ some b
      → count_sets (set sets i b') + count_set p b ≡ count_sets sets + count_set p b'
  count-set [] i b b' e = cc
  count-set (x ∷ sets) zero b b' e = ground arith
  count-set (x ∷ sets) (suc i) b b' e = omega (arith, count-set sets i b b' e)

  deref-get : (o : Option (Option (Set V))) (b : Option (Set V)) → deref o ≡ ok b → o ≡ some b
  deref-get none b e = cc
  deref-get (some x) b e = ground arith

  locate-get :
      (key : ℤ) (hm : HashMap V) (i : ℕ) (b : Option (Set V))
      → locate key hm ≡ ok (i, b)
      → get_elem? hm.sets i ≡ some b
  unfolding locate
  locate-get key hm i b e =
      let (j, es, e₁) = >>=-eq-ok (slot key hm.size) _ e in
      let (c, ec, e₂) = >>=-eq-ok (deref (get_elem? hm.sets j)) _ e₁ in
      ground (arith, deref-get (get_elem? hm.sets j) c ec, e₂)

  -- A successful insertion adds its item.
  pub count-insert_map :
      (got : Bool) (key : ℤ) (v : V) (m m' : Option (HashMap V)) (st : Status)
      → insert got key (some v) m ≡ ok (st, m')
      → count_map m' ≡ added p (some v) st + count_map m
  unfolding insert count_map
  count-insert_map got key v none m' st e = ground arith
  count-insert_map got key v (some hm) m' st e =
      let (ib, el, e₁) = >>=-eq-ok (locate key hm) _ e in
      ground (
        arith,
        e₁,
        locate-get key hm ib.0 ib.1 el,
        count-insert p got key (some v) ib.1,
        count-set hm.sets ib.0 ib.1 (Set.insert got key (some v) ib.1).1,
      )

  pub count-remove_map :
      (key : ℤ) (m m' : Option (HashMap V)) (item : Option V)
      → remove key m ≡ ok (item, m')
      → count_map m' + count_item p item ≡ count_map m
  unfolding remove count_map
  count-remove_map key none m' item e = ground arith
  count-remove_map key (some hm) m' item e =
      let (ib, el, e₁) = >>=-eq-ok (locate key hm) _ e in
      ground (
        arith,
        e₁,
        locate-get key hm ib.0 ib.1 el,
        count-remove p key ib.1,
        count-set hm.sets ib.0 ib.1 (Set.remove key ib.1).1,
      )

  new_sets-count : (n : ℕ) (got : ℕ → Bool) (i : ℕ) → count_sets (new_sets n got i) ≡ 0
  unfolding new_sets Set.new
  new_sets-count zero got i = refl
  new_sets-count (suc n) got i = elim (Bool-cases (got i)) [
    | inl e ↦ rw e (omega (arith, new_sets-count n got (i + 1)))
    | inr e ↦ rw e (omega (arith, new_sets-count n got (i + 1)))
  ]

  -- A new map holds nothing.
  pub new-count :
      (n : ℕ) (got_map got_sets : Bool) (got : ℕ → Bool) (m : Option (HashMap V))
      → new n got_map got_sets got ≡ ok m
      → count_map m ≡ 0
  unfolding new count_map
  new-count n false got_sets got m e = ap count_map (sym (ok-injective _ _ e))
  new-count n true true got m e = ap count_map (sym (ok-injective _ _ e)) ∙ new_sets-count n got 0
  new-count n true false got m e = elim (Bool-cases (n == 0)) [
    | inl empty ↦
        let done : ok (some (record { size = 0; sets = [] })) ≡ ok m = rw empty at e in
        ap count_map (sym (ok-injective _ _ done))
    | inr some_sets ↦ cc (rw some_sets at e)
  ]
