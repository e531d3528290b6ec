-- ===== src/Api/Conditions.antt =====
-- The loops that SetCondition and HasCondition of api/v1alpha1/{job,task,machine}.go share: the
-- first condition that `same` finds is changed in place, or a fresh one is appended and changed;
-- the first condition that `same` finds is the one that is read.
pub mod Laws
use rufio.Prelude.{Bool, false, List, [], ◌∷◌, if◌then◌else◌}

unfoldable pub apply_options : {C : Type 0} → List (C → C) → C → C
apply_options [] c = c
apply_options (opt ∷ opts) c = apply_options opts (opt c)

module _ {C : Type 0} where
  unfoldable pub update_condition : (C → Bool) → C → (C → C) → List C → List C
  update_condition same fresh change [] = change fresh ∷ []
  update_condition same fresh change (c ∷ cs) =
      if same c then change c ∷ cs else c ∷ update_condition same fresh change cs

  unfoldable pub check_condition : (C → Bool) → (C → Bool) → List C → Bool
  check_condition same test [] = false
  check_condition same test (c ∷ cs) = if same c then test c else check_condition same test cs
