-- ===== src/Boot/Halting.antt =====
-- Code that may call Halt(): `ok none` is a machine that has halted.
use yallnix.Prelude.{Option, none, some, Run, ok, fault, Status, error, success, ◌≡◌, refl, arith}

abbrev pub Boot {ℓ} : Type ℓ → Type ℓ
Boot A = Run (Option A)

module _ {ℓ κ} {A : Type ℓ} {B : Type κ} where
  infixl 5 ◌>>=◌
  abbrev pub ◌>>=◌ : Boot A → (A → Boot B) → Boot B
  fault >>= behind = fault
  ok none >>= behind = ok none
  ok (some a) >>= behind = behind a

  -- Code that runs on is a first part that does, and what follows.
  pub >>=-eq-some :
      (run : Boot A) (behind : A → Boot B) {end : B}
      → (run >>= behind) ≡ ok (some end)
      → (first : A) × (run ≡ ok (some first)) × (behind first ≡ ok (some end))
  >>=-eq-some fault behind e = cc
  >>=-eq-some (ok none) behind e = cc
  >>=-eq-some (ok (some a)) behind e = (a, refl, e)

module _ {ℓ} {A : Type ℓ} where
  abbrev pub goes : A → Boot A
  goes a = ok (some a)

  abbrev pub runs : Run A → Boot A
  runs fault = fault
  runs (ok a) = ok (some a)

  -- `if (… == ERROR) Halt();`
  abbrev pub must : Run (Status × A) → Boot A
  must fault = fault
  must (ok (error, a)) = ok none
  must (ok (success, a)) = ok (some a)

  -- The same of a function that writes a pointer when it succeeds.
  abbrev pub need {κ} : {B : Type κ} → Run (Option A × B) → Boot (A × B)
  need fault = fault
  need (ok (none, b)) = ok none
  need (ok (some a, b)) = ok (some (a, b))

  -- The same of a pointer that is NULL if there is no memory.
  abbrev pub is_made : Option A → Boot A
  is_made none = ok none
  is_made (some a) = ok (some a)

  pub must-eq : (r : Run (Status × A)) (a : A) → must r ≡ ok (some a) → r ≡ ok (success, a)
  must-eq fault a e = cc
  must-eq (ok (error, x)) a e = cc
  must-eq (ok (success, x)) a e = ground arith

  pub need-eq {κ} :
      {B : Type κ} (r : Run (Option A × B)) (a : A) (b : B)
      → need r ≡ ok (some (a, b))
      → r ≡ ok (some a, b)
  need-eq fault a b e = cc
  need-eq (ok (none, x)) a b e = cc
  need-eq (ok (some x, y)) a b e = ground arith

  pub runs-eq : (r : Run A) (a : A) → runs r ≡ ok (some a) → r ≡ ok a
  runs-eq fault a e = cc
  runs-eq (ok x) a e = ground arith

  pub goes-injective : (a b : A) → goes a ≡ goes b → a ≡ b
  goes-injective a b e = ground (arith, e)
