-- ===== src/Controller/Exec/Balance.antt =====
-- Clients that are opened and closed: the difference of the two numbers that a stateful call leaves.
use rufio.Prelude.{◌≡◌, ◌+◌, Bool, arith, if◌then◌else◌}
use rufio.Controller.Exec.{State, Exec, Outcome, done, panic, resume, pure, ◌>>=◌}
use rufio.Controller.Exec.Keeps.{is_opened, is_closed, calls_of, Quiet}

-- `m` closes as many clients as it opens, whether it returns or panics.
pub record Balanced {W B A : Type 0} (m : Exec W B A) : Type 0 where
  pub at :
      (s : State W B)
      → calls_of is_opened (m s).1 + calls_of is_closed s
        ≡ calls_of is_closed (m s).1 + calls_of is_opened s

module _ {W B : Type 0} where
  pub Balanced-Quiet :
      {A : Type 0} (m : Exec W B A) → Quiet is_opened m → Quiet is_closed m → Balanced m
  Balanced-Quiet m ho hc = record { at = λ s. omega (arith, ho.at s, hc.at s) }

  pub Balanced-pure : {A : Type 0} (a : A) → Balanced (pure {W = W} {B = B} a)
  unfolding pure
  Balanced-pure a = record { at = λ s. omega arith }

  Balanced-resume :
      {A C : Type 0} (f : A → Exec W B C) (r : Outcome A) (s : State W B)
      → ((a : A) → Balanced (f a))
      → calls_of is_opened (resume f r s).1 + calls_of is_closed s
        ≡ calls_of is_closed (resume f r s).1 + calls_of is_opened s
  Balanced-resume f (done a) s h = (h a).at s
  Balanced-resume f panic s h = omega arith

  pub Balanced-bind :
      {A C : Type 0} (m : Exec W B A) (f : A → Exec W B C)
      → Balanced m
      → ((a : A) → Balanced (f a))
      → Balanced (m >>= f)
  unfolding ◌>>=◌
  Balanced-bind m f hm hf = record {
    at = λ s. omega (arith, hm.at s, Balanced-resume f (m s).0 (m s).1 hf);
  }

  pub Balanced-if :
      {A : Type 0} (b : Bool) (m n : Exec W B A)
      → Balanced m
      → Balanced n
      → Balanced (if b then m else n)
  Balanced-if Bool.true m n hm hn = hm
  Balanced-if Bool.false m n hm hn = hn
