-- ===== src/System/Tasks/Gives.antt =====
-- Stateful calls that return, from a given view of the cluster, with what they return and the view
-- they end with.
use rufio.Prelude.{◌≡◌, refl, sym, subst, Option, none, some}
use rufio.Controller.Error.{Error, Result, ok, err}
use rufio.Controller.Exec.{
  State, Exec, Outcome, done, resume, pure, perform_with, finally, ◌>>=◌, Call,
}
use rufio.Controller.Exec.Always.{Always}
use rufio.System.Tasks.Leads.{SameView}

abbrev pub IsOk : {A : Type 0} → Result A → Type 0
IsOk (ok a) = Unit
IsOk (err e) = ⊥

abbrev pub IsNil : Option Error → Type 0
IsNil none = Unit
IsNil (some e) = ⊥

module _ {W B V : Type 0} (view : W → V) where
  -- From the view `v`, `m` returns, and what it returns and the view at its end satisfy `R`.
  pub record Gives {A : Type 0} (v : V) (R : A → V → Type 0) (m : Exec W B A) : Type 0 where
    pub at :
        (s : State W B) → view s.world ≡ v → (a : A) × ((m s).0 ≡ done a) × R a (view (m s).1.world)

  -- It leaves the view as it is.
  abbrev pub GivesSame : {A : Type 0} → V → (A → Type 0) → Exec W B A → Type 0
  GivesSame v P = Gives v (λ a v'. P a × (v' ≡ v))

  module _ {v : V} where
    pub Gives-pure : {A : Type 0} → {R : A → V → Type 0} → (a : A) → R a v → Gives v R (pure a)
    unfolding pure
    Gives-pure {R = R} a r = record { at = λ s e. (a, refl, subst (R a) (sym e) r) }

    pub Gives-perform :
        {A : Type 0}
        → {R : A → V → Type 0} → (c : A → Call B) (op : W → A × W)
        → ((w : W) → view w ≡ v → R (op w).0 (view (op w).1))
        → Gives v R (perform_with c op)
    unfolding perform_with
    Gives-perform c op h = record { at = λ s e. ((op s.world).0, refl, h s.world e) }

    pub Gives-weaken :
        {A : Type 0}
        → {R Q : A → V → Type 0} → (m : Exec W B A) → ((a : A) (v' : V) → R a v' → Q a v')
        → Gives v R m
        → Gives v Q m
    Gives-weaken m f h = record {
      at = λ s e. let (a, d, r) = h.at s e in (a, d, f a (view (m s).1.world) r);
    }

    Gives-resume :
        {A C : Type 0}
        → {R : C → V → Type 0} → (f : A → Exec W B C) (r : Outcome A) (s : State W B) (a : A)
        → r ≡ done a
        → Gives v R (f a)
        → view s.world ≡ v
        → (c : C) × ((resume f r s).0 ≡ done c) × R c (view (resume f r s).1.world)
    Gives-resume f r s a d h e = rw d (h.at s e)

    -- The first part leaves the view as it is.
    pub Gives-bind :
        {A C : Type 0}
        → {P : A → Type 0} → {R : C → V → Type 0} → (m : Exec W B A) (f : A → Exec W B C)
        → GivesSame v P m
        → ((a : A) → P a → Gives v R (f a))
        → Gives v R (m >>= f)
    unfolding ◌>>=◌
    Gives-bind m f hm hf = record {
      at = λ s e. let (a, d, q) = hm.at s e in Gives-resume f (m s).0 (m s).1 a d (hf a q.0) q.1;
    }

    pub Gives-finally :
        {A C : Type 0}
        → {R : A → V → Type 0} → (m : Exec W B A) (cleanup : Exec W B C) → Gives v R m
        → Always (SameView view) cleanup
        → Gives v R (finally m cleanup)
    unfolding finally
    Gives-finally {R = R} m cleanup hm hc = record {
      at = λ s e. let (a, d, r) = hm.at s e in (a, d, subst (R a) (sym (hc.at (m s).1)) r);
    }

  -- The second part returns, and leaves the view as it is.
  pub Gives-then :
      {A C : Type 0}
      → {v : V} → {Q : V → Type 0} → (m : Exec W B A) (f : A → Exec W B C)
      → Gives v (λ _ v'. Q v') m
      → ((a : A) (v' : V) → GivesSame v' (λ _. Unit {0}) (f a))
      → Gives v (λ _ v'. Q v') (m >>= f)
  unfolding ◌>>=◌
  Gives-then {Q = Q} m f hm hf = record {
    at = λ s e.
        let (a, d, q) = hm.at s e in
        Gives-resume {R = λ _ v'. Q v'} f (m s).0 (m s).1 a d
          (record {
            at = λ s' e'.
                let (c, d', k) = (hf a (view (m s).1.world)).at s' e' in
                (c, d', subst Q (sym k.1) q);
          })
          refl;
  }
