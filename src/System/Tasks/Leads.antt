-- ===== src/System/Tasks/Leads.antt =====
-- What a stateful call that begins with a given view of the cluster may end with.
use rufio.Prelude.{◌≡◌, refl, sym, ◌∙◌, subst, Bool, true, false, if◌then◌else◌}
use rufio.Controller.Exec.{State, Exec, Outcome, done, panic, resume, finally, ◌>>=◌}
use rufio.Controller.Exec.Always.{IsPreorder, Always}

module _ {W B V : Type 0} (view : W → V) where
  abbrev pub SameView : State W B → State W B → Type 0
  SameView s t = view t.world ≡ view s.world

  pub SameView-IsPreorder : IsPreorder SameView
  SameView-IsPreorder = record { same = λ s. refl; then_by = λ s t u h g. g ∙ h }

  -- From the view `v` it ends with a view that satisfies `Q`, whether it returns or panics.
  pub record Leads {A : Type 0} (v : V) (Q : V → Type 0) (m : Exec W B A) : Type 0 where
    pub at : (s : State W B) → view s.world ≡ v → Q (view (m s).1.world)

  resume-steady :
      {A C : Type 0} (f : A → Exec W B C) (r : Outcome A) (s : State W B)
      → ((a : A) → Always SameView (f a))
      → view (resume f r s).1.world ≡ view s.world
  resume-steady f (done a) s h = (h a).at s
  resume-steady f panic s h = refl

  module _ {v : V} {Q : V → Type 0} where
    pub Leads-steady : {A : Type 0} (m : Exec W B A) → Q v → Always SameView m → Leads v Q m
    Leads-steady m q h = record { at = λ s e. subst Q (sym (h.at s ∙ e)) q }

    Leads-resume :
        {A C : Type 0} (f : A → Exec W B C) (r : Outcome A) (s : State W B)
        → Q v
        → ((a : A) → Leads v Q (f a))
        → view s.world ≡ v
        → Q (view (resume f r s).1.world)
    Leads-resume f (done a) s q h e = (h a).at s e
    Leads-resume f panic s q h e = subst Q (sym e) q

    -- The first part leaves the view as it is.
    pub Leads-bind :
        {A C : Type 0} (m : Exec W B A) (f : A → Exec W B C)
        → Q v
        → Always SameView m
        → ((a : A) → Leads v Q (f a))
        → Leads v Q (m >>= f)
    unfolding ◌>>=◌
    Leads-bind m f q hm hf = record {
      at = λ s e. Leads-resume f (m s).0 (m s).1 q hf (hm.at s ∙ e);
    }

    -- The second part leaves the view as it is.
    pub Leads-then :
        {A C : Type 0} (m : Exec W B A) (f : A → Exec W B C)
        → Leads v Q m
        → ((a : A) → Always SameView (f a))
        → Leads v Q (m >>= f)
    unfolding ◌>>=◌
    Leads-then m f hm hf = record {
      at = λ s e. subst Q (sym (resume-steady f (m s).0 (m s).1 hf)) (hm.at s e);
    }

    pub Leads-finally :
        {A C : Type 0} (m : Exec W B A) (cleanup : Exec W B C)
        → Leads v Q m
        → Always SameView cleanup
        → Leads v Q (finally m cleanup)
    unfolding finally
    Leads-finally m cleanup hm hc = record { at = λ s e. subst Q (sym (hc.at (m s).1)) (hm.at s e) }

    pub Leads-if :
        {A : Type 0} (b : Bool) (m n : Exec W B A)
        → Leads v Q m
        → Leads v Q n
        → Leads v Q (if b then m else n)
    Leads-if true m n hm hn = hm
    Leads-if false m n hm hn = hn
