-- ===== src/Http/Secret.antt =====
-- Tokens and secrets in src/http.rs: `constant_time_eq` and `require_bearer_token`.
pub mod Laws
use karet_worker.Common.{
  ℕ, zero, suc, ◌+◌, ◌*◌, ◌/◌, ◌%◌, Bool, true, false, not, Option, none, some, List, [], ◌∷◌, ◌==◌,
  nat_eq, length, if◌then◌else◌,
}
use karet_worker.Common.Text.{Text, bytes, strip_prefix}

-- `x ^ y` and `x | y` on the lowest bits, as many as the first argument says: 8 for a byte.
unfoldable pub xor_bits : ℕ → ℕ → ℕ → ℕ
xor_bits zero a b = 0
xor_bits (suc w) a b = (a % 2 + b % 2) % 2 + 2 * xor_bits w (a / 2) (b / 2)

unfoldable pub or_bits : ℕ → ℕ → ℕ → ℕ
or_bits zero a b = 0
or_bits (suc w) a b = (a % 2 + b % 2 + 1) / 2 + 2 * or_bits w (a / 2) (b / 2)

-- The loop, with what differs so far.
unfoldable pub differences : ℕ → Text → Text → ℕ
differences diff [] b = diff
differences diff (x ∷ a) [] = diff
differences diff (x ∷ a) (y ∷ b) = differences (or_bits 8 diff (xor_bits 8 x y)) a b

unfoldable pub constant_time_eq : Text → Text → Bool
constant_time_eq a b = if not (length a == length b) then false else differences 0 a b == 0

-- A reply: its status, and the kind and the text of an error.
pub record Response : Type 0 where
  pub status : ℕ
  pub error : Text
  pub message : Text

abbrev pub error_response : ℕ → Text → Text → Response
error_response status error message = record { status = status; error = error; message = message }

abbrev bearer : Option Text → Option Text
bearer none = none
bearer (some value) = strip_prefix value (bytes "Bearer ")

abbrev unauthorized : Response
unauthorized = error_response 401 (bytes "unauthorized") (bytes "missing or invalid bearer token")

-- `authorization` is the header's text, if it is there and printable; `next` the handler behind.
unfoldable pub require_bearer_token :
    {A : Type 0} → Text → Option Text → (Unit {0} → A) → (Response → A) → A
require_bearer_token auth_token authorization next refuse = elim (bearer authorization) [
  | none ↦ refuse unauthorized
  | some token ↦ if constant_time_eq token auth_token then next tt else refuse unauthorized
]
