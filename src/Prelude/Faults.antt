-- ===== src/Prelude/Faults.antt =====
-- Code that may touch memory it must not touch, and the two status codes.
use mathlib.Core.Path.{◌≡◌, refl}
use mathlib.Core.Option.{Option, none, some}
use Prim.Native.Nat.{ℕ}
use native.Mathlib.Omega.{arith}

-- `fault` is undefined behaviour in C: a null or freed pointer, or an index out of bounds.
pub data Run {ℓ} (A : Type ℓ) : Type ℓ where
  ok : A → Run A
  fault : Run A

module _ {ℓ κ} {A : Type ℓ} {B : Type κ} where
  infixl 5 ◌>>=◌
  -- The first part of a run, and the part behind it, which no fault reaches.
  abbrev pub ◌>>=◌ : Run A → (A → Run B) → Run B
  fault >>= behind = fault
  ok first >>= behind = behind first

  -- A run that ends well has a first part that does, and so has what follows.
  pub >>=-eq-ok :
      (run : Run A) (behind : A → Run B) {end : B}
      → (run >>= behind) ≡ ok end
      → (first : A) × (run ≡ ok first) × (behind first ≡ ok end)
  >>=-eq-ok fault behind e = cc
  >>=-eq-ok (ok first) behind e = (first, refl, e)

-- `*p`: the object at an address, if one is allocated there.
abbrev pub deref {ℓ} : {A : Type ℓ} → Option A → Run A
deref none = fault
deref (some a) = ok a

pub deref-eq {ℓ} : {A : Type ℓ} (o : Option A) (a : A) → deref o ≡ ok a → o ≡ some a
deref-eq none a e = cc
deref-eq (some x) a e = ground arith

pub ok-injective {ℓ} : {A : Type ℓ} (a b : A) → ok a ≡ ok b → a ≡ b
ok-injective a b e = ground arith

-- ERROR of yalnix.h and SUCCESS of Kernel.h.
pub data Status : Type 0 where
  error success : Status

abbrev pub Ptr : Type 0
Ptr = ℕ

abbrev pub null : Ptr
null = 0
