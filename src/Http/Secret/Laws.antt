-- ===== src/Http/Secret/Laws.antt =====
-- `constant_time_eq` of src/http.rs on texts of bytes.
use karet_worker.Common.{
  ℕ, zero, suc, ◌*◌, ◌/◌, ◌<◌, ◌≡◌, refl, true, [], ◌∷◌, nat_eq, text_eq, ==_refl, arith, All,
  length, ◌↔◌,
}
use karet_worker.Common.Text.{Text}
use karet_worker.Http.Secret.{xor_bits, or_bits, differences, constant_time_eq}

-- 2 to the power of w.
abbrev cap : ℕ → ℕ
cap zero = 1
cap (suc w) = 2 * cap w

-- A text of bytes.
abbrev pub IsBytes : Text → Type 0
IsBytes = All (λ c. c < 256)

xor_bits_zero : (w a b : ℕ) → a < cap w → b < cap w → xor_bits w a b ≡ 0 → a ≡ b
unfolding xor_bits
xor_bits_zero zero a b ha hb e = omega (arith, ha, hb)
xor_bits_zero (suc w) a b ha hb e =
    let rest : a / 2 ≡ b / 2 =
      xor_bits_zero w (a / 2) (b / 2) (omega (arith, ha)) (omega (arith, hb)) (omega (arith, e)) in
    omega (arith, rest, e)

xor_bits_same : (w a : ℕ) → xor_bits w a a ≡ 0
unfolding xor_bits
xor_bits_same zero a = refl
xor_bits_same (suc w) a = omega (arith, xor_bits_same w (a / 2))

or_bits_zero : (w a b : ℕ) → a < cap w → b < cap w → or_bits w a b ≡ 0 → (a ≡ 0) × (b ≡ 0)
unfolding or_bits
or_bits_zero zero a b ha hb e = (omega (arith, ha), omega (arith, hb))
or_bits_zero (suc w) a b ha hb e =
    let (ra, rb) =
      or_bits_zero w (a / 2) (b / 2) (omega (arith, ha)) (omega (arith, hb)) (omega (arith, e)) in
    (omega (arith, ra, e), omega (arith, rb, e))

or_bits_0 : (w : ℕ) → or_bits w 0 0 ≡ 0
unfolding or_bits
or_bits_0 zero = refl
or_bits_0 (suc w) = omega (arith, or_bits_0 w)

xor_bits-cap : (w a b : ℕ) → xor_bits w a b < cap w
unfolding xor_bits
xor_bits-cap zero a b = omega arith
xor_bits-cap (suc w) a b = omega (arith, xor_bits-cap w (a / 2) (b / 2))

or_bits-cap : (w a b : ℕ) → or_bits w a b < cap w
unfolding or_bits
or_bits-cap zero a b = omega arith
or_bits-cap (suc w) a b = omega (arith, or_bits-cap w (a / 2) (b / 2))

-- Nothing differs in equal texts.
differences_same : (a : Text) → differences 0 a a ≡ 0
unfolding differences
differences_same [] = refl
differences_same (c ∷ a) = rw (xor_bits_same 8 c, or_bits_0 8) (differences_same a)

-- Where nothing differs, the texts are equal.
differences_zero :
    (diff : ℕ) (a b : Text)
    → diff < 256
    → IsBytes a
    → IsBytes b
    → length a ≡ length b
    → differences diff a b ≡ 0
    → (diff ≡ 0) × (a ≡ b)
unfolding differences
differences_zero diff [] [] hd ha hb l e = (e, refl)
differences_zero diff [] (y ∷ b) hd ha hb l e = ground (arith, l)
differences_zero diff (x ∷ a) [] hd ha hb l e = ground (arith, l)
differences_zero diff (x ∷ a) (y ∷ b) hd (hx, ha) (hy, hb) l e =
    let (d, same) =
      differences_zero (or_bits 8 diff (xor_bits 8 x y)) a b (or_bits-cap 8 diff (xor_bits 8 x y))
        ha hb (omega (arith, l)) e in
    let (z, xz) = or_bits_zero 8 diff (xor_bits 8 x y) hd (xor_bits-cap 8 x y) d in
    (z, ground (arith, same, xor_bits_zero 8 x y hx hy xz))

-- The comparison in constant time decides whether two texts of bytes are equal.
pub constant_time_eq_lem :
    (a b : Text) → IsBytes a → IsBytes b → (constant_time_eq a b ≡ true) ↔ (a ≡ b)
unfolding constant_time_eq nat_eq
constant_time_eq_lem a b ha hb = (forward, λ e. rw (e, ==_refl (length b), differences_same b) refl)
  where
    forward : constant_time_eq a b ≡ true → a ≡ b
    forward e =
        (differences_zero 0 a b (omega arith) ha hb (ground (arith, e)) (ground (arith, e))).1
