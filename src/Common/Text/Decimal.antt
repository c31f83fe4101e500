-- ===== src/Common/Text/Decimal.antt =====
-- The decimal form of numbers.
use karet_worker.Common.Eq.{ltb, ltb→lt, Bool-cases}
use Prim.Native.Nat.{ℕ, zero, suc, ◌+◌, ◌-◌, ◌*◌, ◌/◌, ◌%◌, ◌<◌}
use mathlib.Core.Path.{◌≡◌, ap, sym, ◌∙◌}
use mathlib.Core.Logic.{inl, inr}
use mathlib.Core.List.{[], ◌∷◌}
use native.Mathlib.Omega.{arith}
use karet_worker.Common.Text.{Text, digits_onto, to_string}

-- The number that digits spell behind a number that is read already.
unfoldable pub decimal_value : ℕ → Text → ℕ
decimal_value acc [] = acc
decimal_value acc (c ∷ s) = decimal_value (acc * 10 + (c - b'0')) s

decimal_value-digits_onto :
    (fuel n : ℕ) (out : Text)
    → n < fuel
    → decimal_value 0 (digits_onto fuel n out) ≡ decimal_value n out
unfolding digits_onto decimal_value
decimal_value-digits_onto zero n out h = absurd (omega arith)
decimal_value-digits_onto (suc fuel) n out h = elim (Bool-cases (ltb n 10)) [
  | inl small ↦ rw small (ap (λ k. decimal_value k out) (omega (arith, ltb→lt n 10 small)))
  | inr large ↦ rw large (
      decimal_value-digits_onto fuel (n / 10) ((b'0' + n % 10) ∷ out) (ground arith)
      ∙ ap (λ k. decimal_value k out) (omega arith))
]

pub decimal_value-to_string : (n : ℕ) → decimal_value 0 (to_string n) ≡ n
unfolding to_string decimal_value
decimal_value-to_string n = decimal_value-digits_onto (suc n) n [] (omega arith)

pub to_string_inj : (m n : ℕ) → to_string m ≡ to_string n → m ≡ n
to_string_inj m n e =
    sym (decimal_value-to_string m) ∙ ap (decimal_value 0) e ∙ decimal_value-to_string n
