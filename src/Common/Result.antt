-- ===== src/Common/Result.antt =====
-- Rust's `Result`, and `?` as `>>=`.

use mathlib.Core.Path.{◌≡◌, refl}
use mathlib.Core.Logic.{◌⊎◌, inl, inr}
use native.Mathlib.Omega.{arith}

pub data Result {ℓ κ} (A : Type ℓ) (E : Type κ) : Type (ℓ ⊔ κ) where
  ok : A → Result A E
  err : E → Result A E

infixl 5 ◌>>=◌
abbrev pub ◌>>=◌ {ℓ κ μ} :
    {A : Type ℓ} {B : Type κ} {E : Type μ} → Result A E → (A → Result B E) → Result B E
ok a >>= f = f a
err e >>= f = err e

-- `.map_err(f)`
abbrev pub map_err {ℓ κ μ} :
    {A : Type ℓ} {E : Type κ} {F : Type μ} → (E → F) → Result A E → Result A F
map_err f (ok a) = ok a
map_err f (err e) = err (f e)

module _ {ℓ κ μ} {A : Type ℓ} {E : Type κ} {D : Type μ} where
  -- What comes first has an answer where the whole has one.
  pub answer_of_bind :
      (first : Result A E) (next : A → Result D E) {d : D}
      → (first >>= next) ≡ ok d
      → (x : A) × (first ≡ ok x) × (next x ≡ ok d)
  answer_of_bind (err stop) next given = absurd (ground (arith, given))
  answer_of_bind (ok x) next given = (x, refl, given)

pub Result-cases {ℓ κ} :
    {A : Type ℓ} {E : Type κ} (r : Result A E) → ((a : A) × (r ≡ ok a)) ⊎ ((e : E) × (r ≡ err e))
Result-cases (ok a) = inl (a, refl)
Result-cases (err e) = inr (e, refl)
