-- ===== src/Prelude/Text/Occurs.antt =====
-- Occurrence of a text in another, as a relation, and the search that decides it.
use rufio.Prelude.Tests.{Bool-cases}
use rufio.Prelude.Text.{Text, has_prefix, contains, to_lower}
use mathlib.Core.Path.{◌≡◌, refl}
use mathlib.Core.Logic.{◌↔◌, inl, inr}
use mathlib.Core.Bool.{true}
use mathlib.Core.List.{[], ◌∷◌, ◌++◌}
use native.Mathlib.Omega.{arith}

-- `sub` stands somewhere in `s`.
abbrev pub Occurs : Text → Text → Type 0
Occurs sub s = (before : Text) × (after : Text) × (s ≡ before ++ (sub ++ after))

has_prefix-append : (p r : Text) → has_prefix (p ++ r) p ≡ true
unfolding has_prefix
has_prefix-append [] r = refl
has_prefix-append (x ∷ p) r = ground (arith, has_prefix-append p r)

has_prefix-split : (s p : Text) → has_prefix s p ≡ true → (r : Text) × (s ≡ p ++ r)
unfolding has_prefix
has_prefix-split s [] h = (s, refl)
has_prefix-split [] (y ∷ p) h = cc
has_prefix-split (x ∷ s) (y ∷ p) h =
    let (r, e) = has_prefix-split s p (ground arith) in
    let q : x ≡ y = ground arith in (r, rw (e, q))

contains_of_occurs : (before sub after : Text) → contains (before ++ (sub ++ after)) sub ≡ true
unfolding contains has_prefix
contains_of_occurs [] [] [] = refl
contains_of_occurs [] [] (x ∷ after) = refl
contains_of_occurs [] (x ∷ sub) after = ground (arith, has_prefix-append (x ∷ sub) after)
contains_of_occurs (x ∷ before) sub after = ground (arith, contains_of_occurs before sub after)

Occurs-of_contains : (s sub : Text) → contains s sub ≡ true → Occurs sub s
unfolding contains
Occurs-of_contains [] [] h = ([], [], refl)
Occurs-of_contains [] (x ∷ sub) h = cc
Occurs-of_contains (x ∷ s) sub h = elim (Bool-cases (has_prefix (x ∷ s) sub)) [
  | inl e ↦ let (r, q) = has_prefix-split (x ∷ s) sub e in ([], r, q)
  | inr e ↦ let (b, a, q) = Occurs-of_contains s sub (ground arith) in (x ∷ b, a, rw q)
]

-- The search finds a text exactly where it occurs.
pub contains_iff : (s sub : Text) → (contains s sub ≡ true) ↔ Occurs sub s
contains_iff s sub = (Occurs-of_contains s sub, λ (b, a, e). rw e (contains_of_occurs b sub a))

pub to_lower_idem : (s : Text) → to_lower (to_lower s) ≡ to_lower s
unfolding to_lower
to_lower_idem [] = refl
to_lower_idem (c ∷ s) = ground (arith, to_lower_idem s)
