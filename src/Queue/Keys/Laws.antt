-- ===== src/Queue/Keys/Laws.antt =====
-- Retry delays, the base-36 part of job ids, and the fences of src/queue.rs.
use Prim.Native.Nat.{◌^◌}
use mathlib.Core.List.{append_cancel_left}
use karet_worker.Common.{
  ℕ, zero, suc, ◌+◌, ◌-◌, ◌*◌, ◌/◌, ◌%◌, ◌≤◌, ◌<◌, min, ◌≡◌, refl, ap, sym, ◌∙◌, inl, inr, [], ◌∷◌,
  arith, leb, ◌==◌, nat_eq, ==_iff, Bool-cases, if◌then◌else◌,
}
use karet_worker.Common.Text.{Text, bytes}
use karet_worker.Common.Text.Decimal.{to_string_inj}
use karet_worker.Queue.Keys.{backoff_ms, digits36, digit36, to_base36, fence}

-- The delay after k earlier attempts, beyond the sixth always the cap.
abbrev delay : ℕ → ℕ
delay k = min (30000 * 2 ^ min k 6) 600000

abbrev DelayLaws : ℕ → Type 0
DelayLaws k = (30000 ≤ delay k) × (delay k ≤ 600000) × (delay (suc k) ≡ min (2 * delay k) 600000)

delay_lem : (k : ℕ) → DelayLaws k
delay_lem zero = (omega arith, omega arith, refl)
delay_lem (suc zero) = (omega arith, omega arith, refl)
delay_lem (suc (suc zero)) = (omega arith, omega arith, refl)
delay_lem (suc (suc (suc zero))) = (omega arith, omega arith, refl)
delay_lem (suc (suc (suc (suc zero)))) = (omega arith, omega arith, refl)
delay_lem (suc (suc (suc (suc (suc zero))))) = (omega arith, omega arith, refl)
delay_lem (suc (suc (suc (suc (suc (suc k)))))) =
    let top : min (suc (suc (suc (suc (suc (suc k)))))) 6 ≡ 6 = omega arith in
    let above : min (suc (suc (suc (suc (suc (suc (suc k))))))) 6 ≡ 6 = omega arith in
    rw (top, above) (omega arith, omega arith, refl)

-- The delay before a retry is from 30 seconds to 10 minutes, the first is 30 seconds, and each one
-- after it is twice the one before, capped at 10 minutes.
pub backoff_ms_lem :
    (attempts : ℕ)
    → (30000 ≤ backoff_ms attempts)
      × (backoff_ms attempts ≤ 600000)
      × (backoff_ms 1 ≡ 30000)
      × (backoff_ms (suc (suc attempts)) ≡ min (2 * backoff_ms (suc attempts)) 600000)
unfolding backoff_ms
backoff_ms_lem attempts =
    let here = delay_lem (attempts - 1) in
    let next = delay_lem attempts in
    let e : suc (suc attempts) - 1 ≡ suc attempts = omega arith in
    let e' : suc attempts - 1 ≡ attempts = omega arith in (here.0, here.1, refl, rw (e, e') next.2)

-- The value of a digit of [0-9a-z], and of a text of such digits.
abbrev digit_value : ℕ → ℕ
digit_value c = if leb c b'9' then c - b'0' else c - b'a' + 10

unfoldable pub base36_value : ℕ → Text → ℕ
base36_value acc [] = acc
base36_value acc (c ∷ s) = base36_value (acc * 36 + digit_value c) s

digit_value-digit36 : (d : ℕ) → d < 36 → digit_value (digit36 d) ≡ d
digit_value-digit36 d h = ground arith

base36_value-digits36 :
    (fuel n : ℕ) (out : Text) → n < fuel → base36_value 0 (digits36 fuel n out) ≡ base36_value n out
unfolding digits36 base36_value
base36_value-digits36 zero n out h = absurd (omega arith)
base36_value-digits36 (suc fuel) n out h = elim (Bool-cases (n == 0)) [
  | inl done ↦ rw done (ap (λ k. base36_value k out) (sym ((==_iff n 0).0 done)))
  | inr more ↦ rw more (
      base36_value-digits36 fuel (n / 36) (digit36 (n % 36) ∷ out) (ground arith)
      ∙ ap (λ k. base36_value k out)
          (rw (digit_value-digit36 (n % 36) (omega arith)) (omega arith)))
]

-- The base-36 form is read back as the number that it was made from.
pub base36_value-to_base36 : (n : ℕ) → base36_value 0 (to_base36 n) ≡ n
unfolding to_base36 base36_value bytes
base36_value-to_base36 n = elim (Bool-cases (n == 0)) [
  | inl z ↦ rw z (sym ((==_iff n 0).0 z))
  | inr p ↦ rw p (base36_value-digits36 (suc n) n [] (omega arith))
]

-- Two attempts of one job have different fences.
pub fence_inj : (job : Text) (a b : ℕ) → fence job a ≡ fence job b → a ≡ b
unfolding fence
fence_inj job a b e =
    to_string_inj a b (append_cancel_left (bytes ":") _ _ (append_cancel_left job _ _ e))
