-- ===== src/Api/Memory/Conditions/Arrays.antt =====
-- Lists under the changes that SetCondition makes to an array.
use rufio.Prelude.{
  ℕ, zero, suc, ◌≡◌, ◌<◌, Bool, Option, none, some, List, [], ◌∷◌, ◌++◌, length, take, Bool-cases,
  inl, inr, refl, ap, arith,
}
use rufio.Api.Conditions.{update_condition}
use rufio.Api.Memory.Conditions.{set, modify, find_index}

module _ {C : Type 0} where
  pub length-modify : (f : C → C) (xs : List C) (i : ℕ) → length (modify f xs i) ≡ length xs
  length-modify f [] i = refl
  length-modify f (x ∷ xs) zero = refl
  length-modify f (x ∷ xs) (suc i) = ap suc (length-modify f xs i)

  pub length-set : (xs : List C) (i : ℕ) (c : C) → length (set xs i c) ≡ length xs
  length-set [] i c = refl
  length-set (x ∷ xs) zero c = refl
  length-set (x ∷ xs) (suc i) c = ap suc (length-set xs i c)

  pub take-modify :
      (f : C → C) (n : ℕ) (xs : List C) (i : ℕ) → take n (modify f xs i) ≡ modify f (take n xs) i
  take-modify f zero xs i = refl
  take-modify f (suc n) [] i = refl
  take-modify f (suc n) (x ∷ xs) zero = refl
  take-modify f (suc n) (x ∷ xs) (suc i) = ap (λ ys. x ∷ ys) (take-modify f n xs i)

  pub take-set :
      (n : ℕ) (xs : List C) (c : C)
      → n < length xs
      → take (suc n) (set xs n c) ≡ take n xs ++ c ∷ []
  take-set n [] c h = absurd (omega arith)
  take-set zero (x ∷ xs) c h = refl
  take-set (suc n) (x ∷ xs) c h = ap (λ ys. x ∷ ys) (take-set n xs c (omega arith))

  pub take-append :
      (xs : List C) (c : C) (ys : List C) → take (suc (length xs)) (xs ++ c ∷ ys) ≡ xs ++ c ∷ []
  take-append [] c ys = refl
  take-append (x ∷ xs) c ys = ap (λ zs. x ∷ zs) (take-append xs c ys)

  pub modify-append :
      (f : C → C) (xs : List C) (c : C) → modify f (xs ++ c ∷ []) (length xs) ≡ xs ++ f c ∷ []
  modify-append f [] c = refl
  modify-append f (x ∷ xs) c = ap (λ ys. x ∷ ys) (modify-append f xs c)

  -- The list when the condition has been found at an index, or not at all.
  abbrev pub changed : C → (C → C) → List C → Option ℕ → List C
  changed fresh change xs none = xs ++ change fresh ∷ []
  changed fresh change xs (some i) = modify change xs i

  module _ (same : C → Bool) (fresh : C) (change : C → C) where
    changed_cons :
        (x : C) (xs : List C) (o : Option ℕ)
        → x ∷ changed fresh change xs o
          ≡ changed fresh change (x ∷ xs) (elim o [ none ↦ none | some i ↦ some (suc i) ])
    changed_cons x xs none = refl
    changed_cons x xs (some i) = refl

    pub update-changed :
        (xs : List C)
        → update_condition same fresh change xs ≡ changed fresh change xs (find_index same xs)
    unfolding find_index update_condition
    update-changed [] = refl
    update-changed (x ∷ xs) = elim (Bool-cases (same x)) [
      | inl e ↦ rw e
      | inr e ↦ rw e (rw (update-changed xs) (changed_cons x xs (find_index same xs)))
    ]
