-- ===== src/Prelude/Decimal/RoundTrip.antt =====
-- The decimal digits of a number determine it.
use Prim.Native.Nat.{ℕ, zero, suc, ◌+◌, ◌-◌, ◌*◌, ◌/◌, ◌%◌, ◌<◌}
use mathlib.Core.Path.{◌≡◌, ap, ◌∙◌}
use mathlib.Core.Bool.{false}
use mathlib.Core.List.{[], ◌∷◌}
use native.Mathlib.Omega.{arith}
use rufio.Prelude.Tests.{ltb, ◌==◌, Bool-cases}
use mathlib.Core.Logic.{inl, inr}
use rufio.Prelude.Lists.{All}
use rufio.Prelude.Text.{Text}
use rufio.Prelude.Decimal.{digits, format_ℕ}

-- The number that digits stand for, after those of `acc`.
abbrev pub value : ℕ → Text → ℕ
value acc [] = acc
value acc (c ∷ cs) = value (acc * 10 + (c - b'0')) cs

value-digits : (f n : ℕ) (out : Text) → n < f → value 0 (digits f n out) ≡ value n out
unfolding digits
value-digits zero n out h = absurd (omega arith)
value-digits (suc f) n out h = elim (Bool-cases (ltb n 10)) [
  | inl e ↦ rw e (ap (λ (k : ℕ). value k out) (omega arith))
  | inr e ↦ rw e (
      value-digits f (n / 10) ((b'0' + n % 10) ∷ out) (ground arith)
      ∙ ap (λ (k : ℕ). value k out) (omega arith))
]

pub value-format_ℕ : (n : ℕ) → value 0 (format_ℕ n) ≡ n
unfolding format_ℕ
value-format_ℕ n = value-digits (suc n) n [] (omega arith)

-- There is no dash among digits.
abbrev pub NoDash : Text → Type 0
NoDash = All (λ c. (c == b'-') ≡ false)

digits-NoDash : (f n : ℕ) (out : Text) → NoDash out → NoDash (digits f n out)
unfolding digits
digits-NoDash zero n out h = h
digits-NoDash (suc f) n out h = elim (Bool-cases (ltb n 10)) [
  | inl e ↦ rw e (ground arith, h)
  | inr e ↦ rw e (digits-NoDash f (n / 10) ((b'0' + n % 10) ∷ out) (ground arith, h))
]

pub format_ℕ-NoDash : (n : ℕ) → NoDash (format_ℕ n)
unfolding format_ℕ
format_ℕ-NoDash n = digits-NoDash (suc n) n [] tt
