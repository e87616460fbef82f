-- ===== src/KernelCalls/Failure.antt =====
-- KernelExec that returns to its caller.
use yallnix.Prelude.{
  ℕ, ◌≡◌, ◌≢◌, refl, sym, ap, ◌∙◌, Bool, ◌⊎◌, inl, inr, true, false, Option, none, some, List, map,
  ok, deref, ◌>>=◌, ◌==◌, if◌then◌else◌, Status, error, success, arith, >>=-eq-ok, deref-eq,
  ok-injective,
}
use yallnix.Prelude.Int.{ℤ}
use yallnix.HashMap
use yallnix.Hardware.{Hardware}
use yallnix.Kernel.{
  Kernel, Pcb, Step, Rc, err, val, Outcome, returned, to_user, switched, halted, yields, starter,
}
use yallnix.Scheduler.{run_ready}
use yallnix.Scheduler.Exit.{tell_parent, exit_process, remove_parent, delete_process}
use yallnix.Scheduler.Outcomes.{run_ready-not_val}
use yallnix.KernelCalls.General.{kernel_exit, halt_on_error}
use yallnix.UserMemory.{Tables, is_valid_string}
use yallnix.Loading.{Constants, File, Process, LoadStatus, loaded, not_loaded, kill, load_program}
use yallnix.KernelCalls.Exec.{
  kernel_exec, exec_found, check_args, after_load, exec_process, exec_to, image_of, set_image,
}
use yallnix.Loading.Refusal.{load_program-refuses}

exit_process-not_val :
    (code : ℤ) (k k' : Kernel) (n : ℕ) → exit_process code k ≢ ok (returned (val n), k')
unfolding exit_process
exit_process-not_val code k k' n e =
    let (pcb, e₁, e₂) = >>=-eq-ok (deref (k.pcbs k.curr)) _ e in
    let ((st, k₁), e₃, e₄) = >>=-eq-ok (tell_parent pcb code k) _ e₂ in after_told st k₁ e₄
  where
    after_told :
        (st : Status) (k₁ : Kernel)
        → elim st as (λ _. Step) [
          | error ↦ yields (returned err) k₁
          | success ↦ do
            me ← deref (k₁.pcbs k.curr)
            k₂ ← HashMap.iterate (some remove_parent) me.children (ok k₁)
            k₃ ← delete_process k.curr k₂
            run_ready starter none k₃
        ]
          ≢ ok (returned (val n), k')
    after_told error k₁ e = cc
    after_told success k₁ e =
        let (me, e₁, e₂) = >>=-eq-ok (deref (k₁.pcbs k.curr)) _ e in
        let (k₂, e₃, e₄) =
          >>=-eq-ok (HashMap.iterate (some remove_parent) me.children (ok k₁)) _ e₂ in
        let (k₃, e₅, e₆) = >>=-eq-ok (delete_process k.curr k₂) _ e₄ in
        run_ready-not_val starter none k₃ k' n k₃.ready_q refl e₆

-- KernelExit does not return to its caller.
kernel_exit-leaves :
    (code : ℤ) (k k' : Kernel) (rc : Rc) → kernel_exit code k ≢ ok (returned rc, k')
unfolding kernel_exit
kernel_exit-leaves code k k' rc e =
    let (pcb, e₁, e₂) = >>=-eq-ok (deref (k.pcbs k.curr)) _ e in by_pid (pcb.pid == k.init_pid) e₂
  where
    ended :
        (o : Outcome) (k₁ : Kernel)
        → exit_process code k ≡ ok (o, k₁)
        → elim o as (λ _. Step) [
          | returned rc ↦ elim rc [ err ↦ yields halted k₁ | val n ↦ yields (returned (val n)) k₁ ]
          | to_user ↦ yields to_user k₁
          | switched ↦ yields switched k₁
          | halted ↦ yields halted k₁
        ]
          ≢ ok (returned rc, k')
    ended (returned err) k₁ run e = cc
    ended (returned (val n)) k₁ run e = exit_process-not_val code k k₁ n run
    ended to_user k₁ run e = cc
    ended switched k₁ run e = cc
    ended halted k₁ run e = cc

    by_pid :
        (b : Bool)
        → (if b then yields halted k else halt_on_error (exit_process code k))
          ≢ ok (returned rc, k')
    by_pid true e = cc
    by_pid false e = let ((o, k₁), e₁, e₂) = >>=-eq-ok (exit_process code k) _ e in ended o k₁ e₁ e₂

-- The caller of a KernelExec that is refused: ERROR, with the address space as it was.
pub record Refused (rc : Rc) (k k' : Kernel) : Type 0 where
  pub value : rc ≡ err
  pub runs : k'.curr ≡ k.curr
  pub process : k'.pcbs k.curr ≡ k.pcbs k.curr
  pub frames : k'.frames ≡ k.frames

unchanged :
    (k k' : Kernel) (rc : Rc) → yields (returned err) k ≡ ok (returned rc, k') → Refused rc k k'
unchanged k k' rc h = record {
  value = ground (arith, h);
  runs = ap (λ (z : Outcome × Kernel). z.1.curr) (sym (ok-injective _ _ h));
  process = ap (λ (z : Outcome × Kernel). z.1.pcbs k.curr) (sym (ok-injective _ _ h));
  frames = ap (λ (z : Outcome × Kernel). z.1.frames) (sym (ok-injective _ _ h));
}

-- The switch to the new program has failed: ERROR, to a caller that is already the new program.
pub record Replaced (hw : Hardware) (c : Constants) (file : File) (switches : Bool) (rc : Rc)
    (k k' : Kernel) : Type 0 where
  pub failed : switches ≡ false
  pub value : rc ≡ err
  pub runs : k'.curr ≡ k.curr
  pub pcb : Pcb
  pub alive : k.pcbs k.curr ≡ some pcb
  pub lens : List ℕ
  pub image : Process
  pub loads : load_program hw c file lens (image_of pcb k) ≡ ok (loaded, image)
  pub state : k' ≡ set_image pcb image k

exec_found-Refused :
    (hw : Hardware) (c : Constants) (file : File) (strlen : ℕ → ℕ) (switches : Bool) (code : ℤ)
    (args : Option (List ℕ)) (k k' : Kernel) (rc : Rc)
    → exec_found hw c file strlen switches code args k ≡ ok (returned rc, k')
    → Refused rc k k' ⊎ Replaced hw c file switches rc k k'
unfolding exec_found after_load exec_process
exec_found-Refused hw c file strlen switches code none k k' rc e = inl (unchanged k k' rc e)
exec_found-Refused hw c file strlen switches code (some args) k k' rc e =
    let (pcb, e₁, e₂) = >>=-eq-ok (deref (k.pcbs k.curr)) _ e in
    let ((st, p), e₃, e₄) =
      >>=-eq-ok (load_program hw c file (map strlen args) (image_of pcb k)) _ e₂ in
    after switches refl pcb st p (map strlen args) (deref-eq _ pcb e₁) e₃ e₄
  where
    after :
        (b : Bool)
        → switches ≡ b
        → (pcb : Pcb) (st : LoadStatus) (p : Process) (lens : List ℕ) → k.pcbs k.curr ≡ some pcb
        → load_program hw c file lens (image_of pcb k) ≡ ok (st, p)
        → after_load b code st (set_image pcb p k) ≡ ok (returned rc, k')
        → Refused rc k k' ⊎ Replaced hw c file switches rc k k'
    after false failed pcb loaded p lens at run h =
        let back : k' ≡ set_image pcb p k =
          ap (λ (z : Outcome × Kernel). z.1) (sym (ok-injective _ _ h)) in
        inr (record {
          failed = failed;
          value = ground (arith, h);
          runs = ap (λ z. z.curr) back;
          pcb = pcb;
          alive = at;
          lens = lens;
          image = p;
          loads = run;
          state = back;
        })
    after true fine pcb loaded p lens at run h =
        let (k₁, e₁, e₂) = >>=-eq-ok (exec_to (set_image pcb p k)) _ h in absurd (cc)
    after b eq pcb kill p lens at run h =
        absurd (kernel_exit-leaves code (set_image pcb p k) k' rc h)
    after b eq pcb not_loaded p lens at run h =
        let same : p ≡ image_of pcb k =
          load_program-refuses hw c file lens (image_of pcb k) p run in
        let back : k' ≡ set_image pcb (image_of pcb k) k =
          ap (λ (z : Outcome × Kernel). z.1) (sym (ok-injective _ _ h))
          ∙ ap (λ q. set_image pcb q k) same in
        inl (record {
          value = ground (arith, h);
          runs = ap (λ z. z.curr) back;
          process = ap (λ z. z.pcbs k.curr) back ∙ ground (arith, at);
          frames = ap (λ z. z.frames) back;
        })

-- A `KernelExec` that returns to its caller returns ERROR, and the caller still runs. Either its
-- process and the frame list are as they were, or LoadProgram succeeded and the
-- KernelContextSwitch of `execProcess` failed, and the process is left with the image that
-- LoadProgram has made.
pub kernel_exec-Refused :
    (hw : Hardware) (c : Constants) (file : File) (t : Tables) (mem : ℕ → Option ℕ) (strlen : ℕ → ℕ)
    (switches : Bool) (code : ℤ) (filename : ℕ) (argv : List ℕ) (k k' : Kernel) (rc : Rc)
    → kernel_exec hw c file t mem strlen switches code filename argv k ≡ ok (returned rc, k')
    → Refused rc k k' ⊎ Replaced hw c file switches rc k k'
unfolding kernel_exec
kernel_exec-Refused hw c file t mem strlen switches code filename argv k k' rc e =
    let (valid, e₁, e₂) = >>=-eq-ok (is_valid_string hw t mem filename) _ e in by_name valid e₂
  where
    by_name :
        (valid : Bool)
        → (if valid
            then (do
              args ← check_args hw t mem argv
              exec_found hw c file strlen switches code args k)
            else yields (returned err) k)
          ≡ ok (returned rc, k')
        → Refused rc k k' ⊎ Replaced hw c file switches rc k k'
    by_name false h = inl (unchanged k k' rc h)
    by_name true h =
        let (args, e₁, e₂) = >>=-eq-ok (check_args hw t mem argv) _ h in
        exec_found-Refused hw c file strlen switches code args k k' rc e₂
