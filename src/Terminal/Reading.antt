-- ===== src/Terminal/Reading.antt =====
-- TtyBuffer.c: a line on its way from the terminal to its readers.
use Prim.Native.Nat.{min}
use yallnix.Prelude.{
  ℕ, zero, suc, ◌<◌, ◌≤◌, ◌≡◌, refl, sym, ap, ◌∙◌, true, false, Option, none, some, List, [], ◌∷◌,
  ok, ◌>>=◌, deref, Ptr, ltb, Status, error, success, length, take, drop, get_elem?, set, arith,
  >>=-eq-ok, deref-eq, ok-injective, get_elem?-set_self, get_elem?-lt, Bool-cases, inl, inr,
}
use yallnix.Prelude.Int.{pos}
use yallnix.Fifo
use yallnix.Kernel.{Kernel, err, val, Outcome, returned, yields}
use yallnix.Scheduler.{ready_found}
use yallnix.Scheduler.Tty.{unblock_reader}
use yallnix.KernelCalls.Pipe.{bytes_at}
use yallnix.Terminal.{buffer_of, set_buffer, write_buffer, take_line, read_buffer}

-- A step that wakes a process touches neither the buffers nor what has been copied.
pub record Untouched (k k' : Kernel) : Type 0 where
  pub curr : k'.curr ≡ k.curr
  pub buffers : k'.buffers ≡ k.buffers
  pub copied : k'.copied ≡ k.copied

Untouched-to : {k k₁ k' : Kernel} → Untouched k k₁ → k₁ ≡ k' → Untouched k k'
Untouched-to u e = record {
  curr = sym (ap (λ z. z.curr) e) ∙ u.curr;
  buffers = sym (ap (λ z. z.buffers) e) ∙ u.buffers;
  copied = sym (ap (λ z. z.copied) e) ∙ u.copied;
}

ready_found-Untouched : (found : Option Ptr) (k : Kernel) → Untouched k (ready_found found k).1
ready_found-Untouched none k = record { curr = refl; buffers = refl; copied = refl }
ready_found-Untouched (some p) k = record { curr = refl; buffers = refl; copied = refl }

unblock_reader-Untouched :
    (tty : ℕ) (k k' : Kernel) (st : Status) → unblock_reader tty k ≡ ok (st, k') → Untouched k k'
unfolding unblock_reader
unblock_reader-Untouched tty k k' st e =
    let (q, e₁, e₂) = >>=-eq-ok (deref (get_elem? k.reading_qs tty)) _ e in from q e₂
  where
    from :
        (q : Option (List Ptr))
        → ok (elim q as (λ _. Status × Kernel) [
          | none ↦ (error, k)
          | some q' ↦
              ready_found
                (Fifo.deq (some q')).0
                (record k { reading_qs = set k.reading_qs tty (Fifo.deq (some q')).1 })
        ])
          ≡ ok (st, k')
        → Untouched k k'
    from none e =
        Untouched-to (record { curr = refl; buffers = refl; copied = refl })
          (ap (λ (z : Status × Kernel). z.1) (ok-injective _ _ e))
    from (some q') e =
        let k₁ : Kernel = record k { reading_qs = set k.reading_qs tty (Fifo.deq (some q')).1 } in
        let u = ready_found-Untouched (Fifo.deq (some q')).0 k₁ in
        Untouched-to (record { curr = u.curr; buffers = u.buffers; copied = u.copied })
          (ap (λ (z : Status × Kernel). z.1) (ok-injective _ _ e))

take_all {ℓ} : {A : Type ℓ} (n : ℕ) (xs : List A) → length xs ≤ n → take n xs ≡ xs
take_all zero [] le = refl
take_all zero (x ∷ xs) le = absurd (omega arith)
take_all (suc n) [] le = refl
take_all (suc n) (x ∷ xs) le = ap (◌∷◌ x) (take_all n xs (omega arith))

drop_all {ℓ} : {A : Type ℓ} (n : ℕ) (xs : List A) → length xs ≤ n → drop n xs ≡ []
drop_all zero [] le = refl
drop_all zero (x ∷ xs) le = absurd (omega arith)
drop_all (suc n) [] le = refl
drop_all (suc n) (x ∷ xs) le = drop_all n xs (omega arith)

-- What a read has delivered: the oldest bytes of the line, at most `len`, and what is left.
pub record Delivered (tty buf len n : ℕ) (line : List ℕ) (k k' : Kernel) : Type 0 where
  pub count : n ≡ min len (length line)
  pub copied : k'.copied ≡ (k.curr, buf, take len line) ∷ k.copied
  pub left :
      get_elem? k'.buffers tty
      ≡ some (some (record { line = drop len line; is_line_ready = ltb len (length line) }))

some_left :
    (tty buf len n : ℕ) (line : List ℕ) (k k' : Kernel)
    → tty < length k.buffers
    → len < length line
    → (do
      (st, k₂) ← unblock_reader tty (
          set_buffer tty
            (record { line = drop len line; is_line_ready = true })
            (record k { copied = (k.curr, buf, take len line) ∷ k.copied }))
      elim st [ error ↦ yields (returned err) k₂ | success ↦ yields (returned (val len)) k₂ ])
      ≡ ok (returned (val n), k')
    → Delivered tty buf len n line k k'
some_left tty buf len n line k k' lt more e =
    let k₁ : Kernel =
      set_buffer tty (record { line = drop len line; is_line_ready = true })
        (record k { copied = (k.curr, buf, take len line) ∷ k.copied }) in
    let ((st, k₂), e₁, e₂) = >>=-eq-ok (unblock_reader tty k₁) _ e in
    let u : Untouched k₁ k₂ = unblock_reader-Untouched tty k₁ k₂ st e₁ in
    let (len_n, same) = value st k₂ e₂ in
    record {
      count = omega (arith, len_n);
      copied = ap (λ z. z.copied) (sym same) ∙ u.copied;
      left =
          ap (λ z. get_elem? z.buffers tty) (sym same)
          ∙ ap (λ z. get_elem? z tty) u.buffers
          ∙ get_elem?-set_self k.buffers tty _ lt
          ∙ ground arith;
    }
  where
    value :
        (st : Status) (k₂ : Kernel)
        → elim st [ error ↦ yields (returned err) k₂ | success ↦ yields (returned (val len)) k₂ ]
          ≡ ok (returned (val n), k')
        → (len ≡ n) × (k₂ ≡ k')
    value error k₂ e = cc
    value success k₂ e = (ground (arith, e), ground (arith, e))

take_line-Delivered :
    (tty buf len n : ℕ) (line : List ℕ) (k k' : Kernel)
    → tty < length k.buffers
    → take_line tty (record { line = line; is_line_ready = true }) buf len k
      ≡ ok (returned (val n), k')
    → Delivered tty buf len n line k k'
unfolding take_line
take_line-Delivered tty buf len n line k k' lt e = elim (Bool-cases (ltb len (length line))) [
  | inl more ↦ some_left tty buf len n line k k' lt (ground arith) (rw more at e)
  | inr all ↦
      let short : length line ≤ len = ground arith in
      let done : ok (
        returned (val (length line)),
        set_buffer tty (record { line = []; is_line_ready = false })
            (record k { copied = (k.curr, buf, line) ∷ k.copied }),
      )
          ≡ ok (returned (val n), k') =
        rw all at e in
      let same = ap (λ (z : Outcome × Kernel). z.1) (ok-injective _ _ done) in
      record {
        count = ground (arith, done);
        copied = ap (λ z. z.copied) (sym same) ∙ ground (arith, take_all len line short);
        left =
            ap (λ z. get_elem? z.buffers tty) (sym same)
            ∙ get_elem?-set_self k.buffers tty _ lt
            ∙ ground (arith, drop_all len line short);
      }
]

-- A read from a buffer with a line that is ready.
pub read_buffer-Delivered :
    (tty buf len n : ℕ) (line : List ℕ) (k k' : Kernel)
    → get_elem? k.buffers tty ≡ some (some (record { line = line; is_line_ready = true }))
    → read_buffer tty buf len k ≡ ok (returned (val n), k')
    → Delivered tty buf len n line k k'
unfolding read_buffer
read_buffer-Delivered tty buf len n line k k' at e =
    take_line-Delivered tty buf len n line k k' (get_elem?-lt k.buffers tty _ at) (rw at at e)

write_buffer-line :
    (tty n : ℕ) (content : ℕ → ℕ) (k k' : Kernel) (st : Status)
    → write_buffer tty (pos (suc n)) content k ≡ ok (st, k')
    → get_elem? k'.buffers tty
      ≡ some (some (record { line = bytes_at content 0 n; is_line_ready = true }))
unfolding write_buffer
write_buffer-line tty n content k k' st e =
    let (entry, e₁, e₂) = >>=-eq-ok (buffer_of tty k) _ e in
    let (slot, f₁, f₂) = >>=-eq-ok (deref (get_elem? k.buffers tty)) _ e₁ in
    let k₁ : Kernel =
      set_buffer tty (record { line = bytes_at content 0 n; is_line_ready = true }) k in
    let ((st₁, k₂), e₃, e₄) = >>=-eq-ok (unblock_reader tty k₁) _ e₂ in
    let u : Untouched k₁ k₂ = unblock_reader-Untouched tty k₁ k₂ st₁ e₃ in
    let same = ap (λ (z : Status × Kernel). z.1) (ok-injective _ _ e₄) in
    ap (λ z. get_elem? z.buffers tty) (sym same)
    ∙ ap (λ z. get_elem? z tty) u.buffers
    ∙ get_elem?-set_self k.buffers tty _ (get_elem?-lt k.buffers tty slot (deref-eq _ slot f₁))

-- After a `writeBuffer` of a line, and as long as no buffer changes, a `readBuffer` that returns a
-- number returns the smaller of the length asked for and that of the line, has copied that many of
-- the oldest bytes to the caller, and leaves the others in the buffer, which is ready exactly if
-- there are some.
pub write_buffer-read_buffer :
    (tty buf len n m : ℕ) (content : ℕ → ℕ) (st : Status) (k k₁ k₂ k' : Kernel)
    → write_buffer tty (pos (suc n)) content k ≡ ok (st, k₁)
    → k₂.buffers ≡ k₁.buffers
    → read_buffer tty buf len k₂ ≡ ok (returned (val m), k')
    → Delivered tty buf len m (bytes_at content 0 n) k₂ k'
write_buffer-read_buffer tty buf len n m content st k k₁ k₂ k' w same r =
    read_buffer-Delivered tty buf len m (bytes_at content 0 n) k₂ k'
      (ap (λ z. get_elem? z tty) same ∙ write_buffer-line tty n content k k₁ st w) r
