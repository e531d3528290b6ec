-- ===== src/Controller/Exec/Patches.antt =====
-- How often a stateful call makes a call of a kind.
use rufio.Prelude.{ℕ, ◌≤◌, ◌+◌, Bool, true, false, arith, if◌then◌else◌}
use rufio.Controller.Exec.{
  Call, State, Exec, Outcome, done, panic, resume, pure, perform_with, finally, ◌>>=◌,
}
use rufio.Controller.Exec.Keeps.{calls_of, Quiet}

-- `m` makes at most `n` calls that pass the test, whether it returns or panics.
pub record AtMost {W B A : Type 0} (n : ℕ) (p : Call B → Bool) (m : Exec W B A) : Type 0 where
  pub at : (s : State W B) → calls_of p (m s).1 ≤ n + calls_of p s

module _ {W B : Type 0} {p : Call B → Bool} where
  pub AtMost-Quiet : {A : Type 0} (n : ℕ) (m : Exec W B A) → Quiet p m → AtMost n p m
  AtMost-Quiet n m h = record { at = λ s. omega (arith, h.at s) }

  pub AtMost-pure : {A : Type 0} (n : ℕ) (a : A) → AtMost n p (pure {W = W} a)
  unfolding pure
  AtMost-pure n a = record { at = λ s. omega arith }

  pub AtMost-perform_with :
      {A : Type 0} (n : ℕ) (c : A → Call B) (op : W → A × W) → AtMost (1 + n) p (perform_with c op)
  unfolding perform_with
  AtMost-perform_with n c op = record { at = λ s. ground arith }

  AtMost-resume :
      {A C : Type 0} (n : ℕ) (f : A → Exec W B C) (r : Outcome A) (s : State W B)
      → ((a : A) → AtMost n p (f a))
      → calls_of p (resume f r s).1 ≤ n + calls_of p s
  AtMost-resume n f (done a) s h = (h a).at s
  AtMost-resume n f panic s h = omega arith

  -- The calls of the first part all count before those of the second.
  pub AtMost-bind :
      {A C : Type 0} (k n : ℕ) (m : Exec W B A) (f : A → Exec W B C)
      → AtMost k p m
      → ((a : A) → AtMost n p (f a))
      → AtMost (k + n) p (m >>= f)
  unfolding ◌>>=◌
  AtMost-bind k n m f hm hf = record {
    at = λ s. omega (arith, hm.at s, AtMost-resume n f (m s).0 (m s).1 hf);
  }

  pub AtMost-Quiet-bind :
      {A C : Type 0} (n : ℕ) (m : Exec W B A) (f : A → Exec W B C)
      → Quiet p m
      → ((a : A) → AtMost n p (f a))
      → AtMost n p (m >>= f)
  unfolding ◌>>=◌
  AtMost-Quiet-bind n m f hm hf = record {
    at = λ s. omega (arith, hm.at s, AtMost-resume n f (m s).0 (m s).1 hf);
  }

  pub AtMost-finally :
      {A C : Type 0} (n : ℕ) (m : Exec W B A) (cleanup : Exec W B C)
      → AtMost n p m
      → Quiet p cleanup
      → AtMost n p (finally m cleanup)
  unfolding finally
  AtMost-finally n m cleanup hm hc = record { at = λ s. omega (arith, hm.at s, hc.at (m s).1) }

  pub AtMost-if :
      {A : Type 0} (n : ℕ) (b : Bool) (m k : Exec W B A)
      → AtMost n p m
      → AtMost n p k
      → AtMost n p (if b then m else k)
  AtMost-if n true m k hm hk = hm
  AtMost-if n false m k hm hk = hk
