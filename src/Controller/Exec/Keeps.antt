-- ===== src/Controller/Exec/Keeps.antt =====
-- Tests on calls, and stateful calls that leave the number of such calls as it was.
use mathlib.Core.Path.{subst}
use rufio.Prelude.{Bool, true, false, none, ◌≡◌, ◌∙◌, refl, if◌then◌else◌, count_if, ℕ}
use rufio.Controller.Exec.{
  Call, State, Exec, Outcome, done, panic, perform_with, resume, pure, fault, finally, ◌>>=◌,
}

module _ {B : Type 0} where
  -- an action on the machine
  abbrev pub is_action : Call B → Bool
  is_action (Call.set_power_state p b) = true
  is_action (Call.set_boot_device d p e b) = true
  is_action (Call.set_virtual_media k u b) = true
  is_action _ = false

  -- a client that was opened
  abbrev pub is_opened : Call B → Bool
  is_opened (Call.open_client b none) = true
  is_opened _ = false

  abbrev pub is_closed : Call B → Bool
  is_closed (Call.close_client b) = true
  is_closed _ = false

  -- a change to the cluster: a task created, or a status patched
  abbrev pub is_create : Call B → Bool
  is_create (Call.create_task t) = true
  is_create _ = false

  abbrev pub is_patch : Call B → Bool
  is_patch (Call.patch_machine_status m) = true
  is_patch (Call.patch_job_status j) = true
  is_patch (Call.patch_task_status t) = true
  is_patch _ = false

  -- a read of a secret
  abbrev pub is_get_secret : Call B → Bool
  is_get_secret (Call.get_secret k) = true
  is_get_secret _ = false

abbrev pub calls_of : {W B : Type 0} → (Call B → Bool) → State W B → ℕ
calls_of p s = count_if p s.calls

-- `m` makes no call that passes the test, whether it returns or panics.
pub record Quiet {W B A : Type 0} (p : Call B → Bool) (m : Exec W B A) : Type 0 where
  pub at : (s : State W B) → calls_of p (m s).1 ≡ calls_of p s

-- One rule for each way to build a stateful call.
module _ {W B : Type 0} {p : Call B → Bool} where
  pub Quiet-pure : {A : Type 0} (a : A) → Quiet p (pure {W = W} a)
  unfolding pure
  Quiet-pure a = record { at = λ s. refl }

  pub Quiet-fault : {A : Type 0} → Quiet p (fault {W = W} {A = A})
  unfolding fault
  Quiet-fault = record { at = λ s. refl }

  pub Quiet-perform_with :
      {A : Type 0} (c : A → Call B) (op : W → A × W)
      → ((a : A) → p (c a) ≡ false)
      → Quiet p (perform_with c op)
  unfolding perform_with
  Quiet-perform_with c op h = record { at = λ s. rw (h (op s.world).0) }

  Quiet-resume :
      {A C : Type 0} (f : A → Exec W B C) (r : Outcome A) (s : State W B)
      → ((a : A) → Quiet p (f a))
      → calls_of p (resume f r s).1 ≡ calls_of p s
  Quiet-resume f (done a) s h = (h a).at s
  Quiet-resume f panic s h = refl

  pub Quiet-bind :
      {A C : Type 0} (m : Exec W B A) (f : A → Exec W B C)
      → Quiet p m
      → ((a : A) → Quiet p (f a))
      → Quiet p (m >>= f)
  unfolding ◌>>=◌
  Quiet-bind m f hm hf = record { at = λ s. Quiet-resume f (m s).0 (m s).1 hf ∙ hm.at s }

  pub Quiet-finally :
      {A C : Type 0} (m : Exec W B A) (cleanup : Exec W B C)
      → Quiet p m
      → Quiet p cleanup
      → Quiet p (finally m cleanup)
  unfolding finally
  Quiet-finally m cleanup hm hc = record { at = λ s. hc.at (m s).1 ∙ hm.at s }

  pub Quiet-if :
      {A : Type 0} (b : Bool) (m n : Exec W B A)
      → Quiet p m
      → Quiet p n
      → Quiet p (if b then m else n)
  Quiet-if true m n hm hn = hm
  Quiet-if false m n hm hn = hn

pub ruleset quiet_rules =
    (Quiet-pure, Quiet-fault, Quiet-perform_with, Quiet-bind, Quiet-finally, Quiet-if)

-- What `m` returns, where it does, satisfies `R`.
pub record Returns {W B A : Type 0} (R : A → Type 0) (m : Exec W B A) : Type 0 where
  pub at : (s : State W B) (a : A) → (m s).0 ≡ done a → R a

module _ {W B A : Type 0} (R : A → Type 0) where
  pub Returns-pure : (a : A) → R a → Returns R (pure {W = W} {B = B} a)
  unfolding pure
  Returns-pure a h = record { at = λ s b e. let p : a ≡ b = cc in subst R p h }

  pub Returns-if :
      (b : Bool) (m n : Exec W B A) → Returns R m → Returns R n → Returns R (if b then m else n)
  Returns-if true m n hm hn = hm
  Returns-if false m n hm hn = hn

  Returns-resume :
      {C : Type 0} (f : C → Exec W B A) (r : Outcome C) (s : State W B) (a : A)
      → ((c : C) → Returns R (f c))
      → (resume f r s).0 ≡ done a
      → R a
  Returns-resume f (done c) s a h e = (h c).at s a e
  Returns-resume f panic s a h e = cc

  pub Returns-bind :
      {C : Type 0} (m : Exec W B C) (f : C → Exec W B A)
      → ((c : C) → Returns R (f c))
      → Returns R (m >>= f)
  unfolding ◌>>=◌
  Returns-bind m f h = record { at = λ s a e. Returns-resume f (m s).0 (m s).1 a h e }

module _ {W B A C : Type 0} {p : Call B → Bool} (R : A → Type 0) where
  Quiet-resume_returns :
      (f : A → Exec W B C) (r : Outcome A) (s : State W B)
      → ((a : A) → r ≡ done a → R a)
      → ((a : A) → R a → Quiet p (f a))
      → calls_of p (resume f r s).1 ≡ calls_of p s
  Quiet-resume_returns f (done a) s hr hf = (hf a (hr a refl)).at s
  Quiet-resume_returns f panic s hr hf = refl

  -- The rest of a block may use what the first part returns.
  pub Quiet-bind-Returns :
      (m : Exec W B A) (f : A → Exec W B C)
      → Quiet p m
      → Returns R m
      → ((a : A) → R a → Quiet p (f a))
      → Quiet p (m >>= f)
  unfolding ◌>>=◌
  Quiet-bind-Returns m f hm hr hf = record {
    at = λ s. Quiet-resume_returns f (m s).0 (m s).1 (hr.at s) hf ∙ hm.at s;
  }

-- What follows by `pure` makes no call.
module _ {W B A C : Type 0} (m : Exec W B A) (f : A → C) where
  calls-resume-pure :
      (r : Outcome A) (s : State W B) → (resume (λ a. pure (f a)) r s).1.calls ≡ s.calls
  unfolding pure
  calls-resume-pure (done a) s = refl
  calls-resume-pure panic s = refl

  pub calls-bind_pure : (s : State W B) → ((m >>= λ a. pure (f a)) s).1.calls ≡ (m s).1.calls
  unfolding ◌>>=◌
  calls-bind_pure s = calls-resume-pure (m s).0 (m s).1
