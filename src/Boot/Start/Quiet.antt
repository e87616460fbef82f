-- ===== src/Boot/Start/Quiet.antt =====
-- The calls of KernelStart of Kernel.c that start no process: the process that runs, the terminals'
-- transmitters and the frames of the kernel stack stay, and `malloc` goes on where it was.
use yallnix.Prelude.{
  ℕ, ◌+◌, ◌≡◌, refl, sym, ap, ◌∙◌, Run, ok, Ptr, arith, >>=-eq-ok, ok-injective, Status, success,
}
use yallnix.HashMap.{HashMap}
use yallnix.HashMap
use yallnix.Kernel.{Kernel, took}
use yallnix.Scheduler.Creation.{answers, took_many}
use yallnix.SyncObjects.Maps.{init_lock_map, init_cvar_map, init_pipe_map}

pub record Quiet (k k' : Kernel) : Type 0 where
  pub curr : k'.curr ≡ k.curr
  pub transmitters : k'.transmitters ≡ k.transmitters
  pub stack_map : k'.stack_map ≡ k.stack_map
  pub taken : ℕ
  pub mallocs : (i : ℕ) → k'.mallocs i ≡ k.mallocs (taken + i)

pub Quiet-then : {k k₁ k' : Kernel} → Quiet k k₁ → Quiet k₁ k' → Quiet k k'
Quiet-then {k} a b = record {
  curr = b.curr ∙ a.curr;
  transmitters = b.transmitters ∙ a.transmitters;
  stack_map = b.stack_map ∙ a.stack_map;
  taken = a.taken + b.taken;
  mallocs = λ i. b.mallocs i ∙ a.mallocs (b.taken + i) ∙ ap k.mallocs (omega arith);
}

-- A state with the same of all this, of which `n` answers of `malloc` are taken.
abbrev pub behind : (n : ℕ) (k k' : Kernel) → Kernel
behind n k k' = record k' {
  curr = k.curr;
  transmitters = k.transmitters;
  stack_map = k.stack_map;
  mallocs = λ i. k.mallocs (n + i);
}

pub Quiet-behind : (n : ℕ) (k k₁ k' : Kernel) → behind n k k₁ ≡ k' → Quiet k k'
Quiet-behind n k k₁ k' e = record {
  curr = ap (λ z. z.curr) (sym e);
  transmitters = ap (λ z. z.transmitters) (sym e);
  stack_map = ap (λ z. z.stack_map) (sym e);
  taken = n;
  mallocs = λ i. ap (λ z. z.mallocs i) (sym e);
}

abbrev pub ends : Status → Kernel → Run (Status × Kernel)
ends st k = ok (st, k)

pub after : (st st' : Status) (k k' : Kernel) → ends st k ≡ ends st' k' → k ≡ k'
after st st' k k' e = ap (λ (z : Status × Kernel). z.1) (ok-injective _ _ e)

pub init_lock_map-Quiet : (k k' : Kernel) → init_lock_map k ≡ ok (success, k') → Quiet k k'
unfolding init_lock_map
init_lock_map-Quiet k k' e =
    let (m, e₁, e₂) =
      >>=-eq-ok (HashMap.new {V = Ptr} 20 (answers k 0) (answers k 1) (λ i. answers k (2 + i))) _
        e in
    Quiet-behind 22 k (record (took_many 22 k) { lock_map = m }) k' (after _ success _ k' e₂)

pub init_cvar_map-Quiet : (k k' : Kernel) → init_cvar_map k ≡ ok (success, k') → Quiet k k'
unfolding init_cvar_map
init_cvar_map-Quiet k k' e =
    let (m, e₁, e₂) =
      >>=-eq-ok (HashMap.new {V = Ptr} 20 (answers k 0) (answers k 1) (λ i. answers k (2 + i))) _
        e in
    Quiet-behind 22 k (record (took_many 22 k) { cvar_map = m }) k' (after _ success _ k' e₂)

pub init_pipe_map-Quiet : (k k' : Kernel) → init_pipe_map k ≡ ok (success, k') → Quiet k k'
unfolding init_pipe_map
init_pipe_map-Quiet k k' e =
    let (m, e₁, e₂) =
      >>=-eq-ok (HashMap.new {V = Ptr} 20 (answers k 0) (answers k 1) (λ i. answers k (2 + i))) _
        e in
    Quiet-behind 22 k (record (took_many 22 k) { pipe_map = m }) k' (after _ success _ k' e₂)

pub Quiet-refl : (k : Kernel) → Quiet k k
Quiet-refl k = record {
  curr = refl;
  transmitters = refl;
  stack_map = refl;
  taken = 0;
  mallocs = λ i. ap k.mallocs (omega arith);
}

pub Quiet-took : (k : Kernel) → Quiet k (took k)
Quiet-took k = record {
  curr = refl;
  transmitters = refl;
  stack_map = refl;
  taken = 1;
  mallocs = λ i. ap k.mallocs (omega arith);
}
