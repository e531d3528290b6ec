-- ===== src/Controller/Exec/Always.antt =====
-- What every run of a stateful call does to the state, said by a relation that is reflexive and
-- transitive; `Quiet` is one such relation.
use rufio.Prelude.{Bool, true, false, ◌≡◌, ◌∙◌, refl, if◌then◌else◌}
use rufio.Controller.Exec.{
  Call, State, Exec, Outcome, done, panic, resume, pure, fault, finally, ◌>>=◌,
}
use rufio.Controller.Exec.Keeps.{calls_of, Quiet}

pub record IsPreorder {S : Type 0} (R : S → S → Type 0) : Type 0 where
  pub same : (s : S) → R s s
  pub then_by : (s t u : S) → R s t → R t u → R s u

-- `R` holds between the states before and after `m`, whether it returns or panics.
pub record Always {W B A : Type 0} (R : State W B → State W B → Type 0) (m : Exec W B A)
    : Type 0 where
  pub at : (s : State W B) → R s (m s).1

module _ {W B : Type 0} {R : State W B → State W B → Type 0} (pre : IsPreorder R) where
  pub Always-pure : {A : Type 0} (a : A) → Always R (pure {W = W} {B = B} a)
  unfolding pure
  Always-pure a = record { at = λ s. pre.same s }

  pub Always-fault : {A : Type 0} → Always R (fault {W = W} {B = B} {A = A})
  unfolding fault
  Always-fault = record { at = λ s. pre.same s }

  Always-resume :
      {A C : Type 0} (f : A → Exec W B C) (r : Outcome A) (s t : State W B)
      → R s t
      → ((a : A) → Always R (f a))
      → R s (resume f r t).1
  Always-resume f (done a) s t h hf = pre.then_by s t _ h ((hf a).at t)
  Always-resume f panic s t h hf = h

  pub Always-bind :
      {A C : Type 0} (m : Exec W B A) (f : A → Exec W B C)
      → Always R m
      → ((a : A) → Always R (f a))
      → Always R (m >>= f)
  unfolding ◌>>=◌
  Always-bind m f hm hf = record { at = λ s. Always-resume f (m s).0 s (m s).1 (hm.at s) hf }

  pub Always-finally :
      {A C : Type 0} (m : Exec W B A) (cleanup : Exec W B C)
      → Always R m
      → Always R cleanup
      → Always R (finally m cleanup)
  unfolding finally
  Always-finally m cleanup hm hc = record {
    at = λ s. pre.then_by s (m s).1 _ (hm.at s) (hc.at (m s).1);
  }

  pub Always-if :
      {A : Type 0} (b : Bool) (m n : Exec W B A)
      → Always R m
      → Always R n
      → Always R (if b then m else n)
  Always-if true m n hm hn = hm
  Always-if false m n hm hn = hn

module _ {W B : Type 0} (p : Call B → Bool) where
  abbrev pub SameCalls : State W B → State W B → Type 0
  SameCalls s t = calls_of p t ≡ calls_of p s

  pub SameCalls-IsPreorder : IsPreorder SameCalls
  SameCalls-IsPreorder = record { same = λ s. refl; then_by = λ s t u h g. g ∙ h }

  pub Always-Quiet : {A : Type 0} (m : Exec W B A) → Always SameCalls m → Quiet p m
  Always-Quiet m h = record { at = h.at }

  pub Quiet-Always : {A : Type 0} (m : Exec W B A) → Quiet p m → Always SameCalls m
  Quiet-Always m h = record { at = h.at }
