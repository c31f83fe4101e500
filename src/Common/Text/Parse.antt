-- ===== src/Common/Text/Parse.antt =====
-- The decimal form of numbers, read back by `parse::<u64>()`.
use karet_worker.Common.Eq.{◌==◌, nat_eq, ltb, ltb→lt, lt→ltb, Bool-cases}
use Prim.Native.Nat.{ℕ, zero, suc, ◌+◌, ◌*◌, ◌/◌, ◌%◌, ◌^◌, ◌<◌}
use mathlib.Core.Path.{◌≡◌, refl, ap, ◌∙◌}
use mathlib.Core.Logic.{inl, inr}
use mathlib.Core.Bool.{true, false}
use mathlib.Core.List.{[], ◌∷◌}
use mathlib.Core.Option.{some}
use native.Mathlib.Omega.{arith}
use karet_worker.Common.Lists.{all, is_empty}
use karet_worker.Common.Text.{
  Text, is_digit, digits_onto, to_string, digits_value, unsigned, below, parse_u64,
}

digit_of : (n : ℕ) → is_digit (b'0' + n % 10) ≡ true
digit_of n = ground arith

all-digits_onto :
    (fuel n : ℕ) (out : Text)
    → all is_digit out ≡ true
    → all is_digit (digits_onto fuel n out) ≡ true
unfolding digits_onto
all-digits_onto zero n out h = h
all-digits_onto (suc fuel) n out h =
    let more : all is_digit ((b'0' + n % 10) ∷ out) ≡ true = rw (digit_of n) h in
    elim (Bool-cases (ltb n 10)) [
      | inl small ↦ rw small more
      | inr large ↦ rw large (all-digits_onto fuel (n / 10) ((b'0' + n % 10) ∷ out) more)
    ]

pub all-to_string : (n : ℕ) → all is_digit (to_string n) ≡ true
unfolding to_string
all-to_string n = all-digits_onto (suc n) n [] refl

one_digit :
    (acc n : ℕ) (out : Text)
    → digits_value acc ((b'0' + n % 10) ∷ out) ≡ digits_value (acc * 10 + n % 10) out
unfolding digits_value
one_digit acc n out = rw (digit_of n) (ap (λ k. digits_value k out) (omega arith))

digits_value-digits_onto :
    (fuel n : ℕ) (out : Text)
    → n < fuel
    → digits_value 0 (digits_onto fuel n out) ≡ digits_value n out
unfolding digits_onto
digits_value-digits_onto zero n out h = absurd (omega arith)
digits_value-digits_onto (suc fuel) n out h = elim (Bool-cases (ltb n 10)) [
  | inl small ↦
      rw small (one_digit 0 n out ∙ ap (λ k. digits_value k out) (omega (arith, ltb→lt n 10 small)))
  | inr large ↦ rw large (
      digits_value-digits_onto fuel (n / 10) ((b'0' + n % 10) ∷ out) (ground arith)
      ∙ one_digit (n / 10) n out
      ∙ ap (λ k. digits_value k out) (omega arith))
]

is_empty-digits_onto : (fuel n c : ℕ) (out : Text) → is_empty (digits_onto fuel n (c ∷ out)) ≡ false
unfolding digits_onto
is_empty-digits_onto zero n c out = refl
is_empty-digits_onto (suc fuel) n c out =
    ground (arith, is_empty-digits_onto fuel (n / 10) (b'0' + n % 10) (c ∷ out))

is_empty-to_string : (n : ℕ) → is_empty (to_string n) ≡ false
unfolding to_string digits_onto
is_empty-to_string n = ground (arith, is_empty-digits_onto n (n / 10) (b'0' + n % 10) [])

parse_digits :
    (t : Text)
    → is_empty t ≡ false
    → all is_digit t ≡ true
    → parse_u64 t ≡ below (2 ^ 64) (digits_value 0 t)
unfolding parse_u64 unsigned
parse_digits [] e h = absurd (ground (arith, e))
parse_digits (c ∷ s) e h = elim (Bool-cases (c == b'+')) [
  | inl plus ↦ absurd (ground (arith, plus, h))
  | inr digit ↦ rw digit refl
]

pub parse_u64-to_string : (n : ℕ) → n < 2 ^ 64 → parse_u64 (to_string n) ≡ some n
unfolding to_string digits_value
parse_u64-to_string n h =
    parse_digits (to_string n) (is_empty-to_string n) (all-to_string n)
    ∙ rw (digits_value-digits_onto (suc n) n [] (omega arith)) (rw (lt→ltb n (2 ^ 64) h) refl)
