-- ===== src/HashMap/Tests.antt =====
-- HashMap.c on a map with two buckets.
use yallnix.Prelude.{ℕ, ◌≡◌, refl, true, [], ◌∷◌, some, none, arith, ok, success, if◌then◌else◌}
use yallnix.Prelude.Int.{ℤ, pos, eq_ℤ}
use yallnix.HashMap.{HashMap, slot}
use yallnix.HashMap
use yallnix.Set
use yallnix.Set.{find_loop}
use yallnix.HashMap.Buckets.{IsValid}
use yallnix.HashMap.Laws.{view, find-view, insert-view, remove-view}

-- The keys 3 and 5 are in the same bucket.
abbrev two : HashMap ℕ
two = record { size = 2; sets = some [] ∷ some ((pos 5, 50) ∷ (pos 3, 30) ∷ []) ∷ [] }

two-IsValid : IsValid two
unfolding find_loop
two-IsValid = record { sized = refl; nonempty = omega arith; hold = (tt, ((refl, (refl, tt)), tt)) }

find-view_example : HashMap.find (pos 3) (some two) ≡ ok (some 30)
unfolding Set.find find_loop
find-view_example = find-view (pos 3) two two-IsValid tt

insert-view_example :
    (hm' : HashMap ℕ) × (HashMap.insert true (pos 7) (some 70) (some two) ≡ ok (success, some hm'))
    × IsValid hm'
    × (hm'.size ≡ 2)
    × ((j : ℤ) → view hm' j ≡ (if eq_ℤ (pos 7) j then some 70 else view two j))
unfolding Set.find find_loop
insert-view_example =
    insert-view (pos 7) 70 two two-IsValid tt (find-view (pos 7) two two-IsValid tt)

remove-view_example :
    (hm' : HashMap ℕ) × (HashMap.remove (pos 3) (some two) ≡ ok (some 30, some hm'))
    × IsValid hm'
    × (hm'.size ≡ 2)
    × ((j : ℤ) → view hm' j ≡ (if eq_ℤ (pos 3) j then none else view two j))
unfolding Set.find find_loop
remove-view_example = remove-view (pos 3) two two-IsValid tt
