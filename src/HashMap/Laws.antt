-- ===== src/HashMap/Laws.antt =====
-- The hash map of HashMap.c against the partial map from keys to items that it stands for.
use native.Mathlib.Decide.{ℕ_discrete}
use yallnix.Prelude.{
  ℕ, ◌≡◌, refl, ap, ◌∙◌, subst, Bool, true, false, Option, none, some, ◌∷◌, ok, if◌then◌else◌,
  get_elem?, set, length-set, arith, get_elem?-lt, get_elem?-set_self, get_elem?-set_ne,
  set-get_self, ◌⊎◌, inl, inr, error, success,
}
use yallnix.Prelude.Int.{ℤ, eq_ℤ, eq_ℤ_iff}
use yallnix.Set.{Set}
use yallnix.Set
use yallnix.Set.Laws.{
  Holds, remove_item, find-remove, remove-Holds, insert_new, insert_taken, insert_no_memory,
  find_new, new-Holds, allocated,
}
use yallnix.HashMap.{HashMap, locate, insert, find, remove}
use yallnix.HashMap.Buckets.{IsValid, AllHold-set, Fits, index, locate_lem}

module _ {ℓ} {V : Type ℓ} where
  abbrev pub bucket_find : ℤ → Option (Option (Set V)) → Option V
  bucket_find key none = none
  bucket_find key (some b) = Set.find key b

  -- The item that the map holds for a key.
  abbrev pub view : HashMap V → ℤ → Option V
  view hm key = bucket_find key (get_elem? hm.sets (index key hm.size))

  pub find-view :
      (key : ℤ) (hm : HashMap V)
      → IsValid hm
      → Fits key hm.size
      → find key (some hm) ≡ ok (view hm key)
  unfolding find
  find-view key hm v f = let (b, e, at, h) = locate_lem key hm v f in rw (e, at)

  -- The map with one bucket replaced.
  abbrev put : HashMap V → ℕ → Option (Set V) → HashMap V
  put hm i b = record hm { sets = set hm.sets i b }

  put-IsValid :
      (hm : HashMap V) (i : ℕ) (b : Option (Set V)) → IsValid hm → Holds b → IsValid (put hm i b)
  put-IsValid hm i b v h = record {
    sized = length-set hm.sets i b ∙ v.sized;
    nonempty = v.nonempty;
    hold = AllHold-set hm.sets i b v.hold h;
  }

  view_at :
      (hm : HashMap V) (key : ℤ) (b : Option (Set V))
      → get_elem? hm.sets (index key hm.size) ≡ some b
      → view hm key ≡ Set.find key b
  view_at hm key b e = rw e

  -- Replacing the bucket of `key` by one that differs from it at `key` only changes the map there.
  view-put :
      (hm : HashMap V) (key j : ℤ) (b b' : Option (Set V)) (item : Option V)
      → get_elem? hm.sets (index key hm.size) ≡ some b
      → (Set.find j b' ≡ (if eq_ℤ key j then item else Set.find j b))
      → view (put hm (index key hm.size) b') j ≡ (if eq_ℤ key j then item else view hm j)
  view-put hm key j b b' item e law = elim (ℕ_discrete (index key hm.size) (index j hm.size)) [
    | yes same ↦ ground (
      arith,
      law,
      same,
      get_elem?-set_self hm.sets (index key hm.size) b'
          (get_elem?-lt hm.sets (index key hm.size) b e),
    )
    | no other ↦ ground (
      arith,
      get_elem?-set_ne hm.sets b' other,
      eq_ℤ_iff key j,
      ap {B = ℕ} (λ z. index z hm.size) {x = key} {y = j},
    )
  ]

  -- `HashMap_insert` into a valid map, with memory and a key that can index it and is not in it:
  -- it succeeds, the map stays valid and keeps its size, and it gains that key alone.
  pub insert-view :
      (key : ℤ) (v : V) (hm : HashMap V)
      → IsValid hm
      → Fits key hm.size
      → find key (some hm) ≡ ok none
      → (hm' : HashMap V) × (insert true key (some v) (some hm) ≡ ok (success, some hm'))
        × IsValid hm'
        × (hm'.size ≡ hm.size)
        × ((j : ℤ) → view hm' j ≡ (if eq_ℤ key j then some v else view hm j))
  unfolding insert
  insert-view key v hm ok_hm f e =
      let (b, at, get, h) = locate_lem key hm ok_hm f in
      let (nodes, eb) = allocated b h in
      let at' : locate key hm ≡ ok (index key hm.size, some nodes) = ground (arith, at, eb) in
      let get' : get_elem? hm.sets (index key hm.size) ≡ some (some nodes) =
        ground (arith, get, eb) in
      let free : Set.find key (some nodes) ≡ none =
        ground (arith, e, find-view key hm ok_hm f, view_at hm key (some nodes) get') in
      (
        put hm (index key hm.size) (some ((key, v) ∷ nodes)),
        rw (at', insert_new key v nodes free),
        put-IsValid hm _ _ ok_hm (new-Holds key v nodes (subst Holds eb h) free),
        refl,
        λ j. view-put hm key j (some nodes) _ (some v) get' (find_new key j v nodes),
      )

  put_same :
      (hm : HashMap V) (i : ℕ) (b : Option (Set V)) → get_elem? hm.sets i ≡ some b → put hm i b ≡ hm
  put_same hm i b e = ap (λ s. record hm { sets = s }) (set-get_self hm.sets i b e)

  -- A key that is there, or no memory: ERROR, and nothing changes.
  pub insert_fails :
      (got : Bool) (key : ℤ) (v : V) (hm : HashMap V)
      → IsValid hm
      → Fits key hm.size
      → (got ≡ false) ⊎ ((w : V) × (find key (some hm) ≡ ok (some w)))
      → insert got key (some v) (some hm) ≡ ok (error, some hm)
  unfolding insert
  insert_fails got key v hm ok_hm f (inl e) =
      let (b, at, get, h) = locate_lem key hm ok_hm f in
      rw (at, e, insert_no_memory key (some v) b, put_same hm _ b get)
  insert_fails got key v hm ok_hm f (inr (w, e)) =
      let (b, at, get, h) = locate_lem key hm ok_hm f in
      let there : Set.find key b ≡ some w =
        ground (arith, find-view key hm ok_hm f, view_at hm key b get) in
      rw (at, insert_taken got key (some v) w b there, put_same hm _ b get)

  -- `HashMap_remove` of a key that can index a valid map returns the item of the key, the map
  -- stays valid and keeps its size, and it loses that key alone.
  pub remove-view :
      (key : ℤ) (hm : HashMap V)
      → IsValid hm
      → Fits key hm.size
      → (hm' : HashMap V) × (remove key (some hm) ≡ ok (view hm key, some hm'))
        × IsValid hm'
        × (hm'.size ≡ hm.size)
        × ((j : ℤ) → view hm' j ≡ (if eq_ℤ key j then none else view hm j))
  unfolding remove
  remove-view key hm ok_hm f =
      let (b, at, get, h) = locate_lem key hm ok_hm f in
      (
        put hm (index key hm.size) (Set.remove key b).1,
        rw (at, remove_item key b, view_at hm key b get),
        put-IsValid hm _ _ ok_hm (remove-Holds key b h),
        refl,
        λ j. view-put hm key j b _ none get (find-remove key j b h),
      )
