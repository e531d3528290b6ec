-- ===== src/Prelude/Decimal.antt =====
-- `strconv.Itoa` and the verb `%d`.
pub mod RoundTrip
use Prim.Native.Nat.{ℕ, zero, suc, ◌+◌, ◌/◌, ◌%◌}
use mathlib.Core.List.{[], ◌∷◌}
use mathlib.Core.Path.{◌≡◌, refl}
use rufio.Prelude.Tests.{ltb, if◌then◌else◌}
use rufio.Prelude.Text.{Text, codes}
use rufio.Prelude.Int.{ℤ, pos, negsuc}

-- The decimal digits of a number in front of `out`; each round takes one digit, and the fuel is
-- more than the number, so it does not run out.
unfoldable pub digits : ℕ → ℕ → Text → Text
digits zero n out = out
digits (suc f) n out =
    let rest = digits f (n / 10) ((b'0' + n % 10) ∷ out) in
    if ltb n 10 then (b'0' + n) ∷ out else rest

unfoldable pub format_ℕ : ℕ → Text
unfolding digits
format_ℕ n = digits (suc n) n []

unfoldable pub itoa : ℤ → Text
unfolding format_ℕ
itoa (pos n) = format_ℕ n
itoa (negsuc n) = b'-' ∷ format_ℕ (suc n)

itoa_negative : itoa (negsuc 1022) ≡ codes "-1023"
unfolding itoa
itoa_negative = refl
