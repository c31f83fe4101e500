-- ===== src/Http/Decode.antt =====
-- `urldecode` of src/http.rs.
pub mod RoundTrip
use karet_worker.Common.{
  ℕ, ◌+◌, ◌-◌, ◌*◌, Bool, true, false, ◌&&◌, Option, none, some, List, [], ◌∷◌, ◌==◌, nat_eq, leb,
  if◌then◌else◌,
}
use karet_worker.Common.Text.{Text}

abbrev pub percent : ℕ
percent = b'%'

abbrev pub plus : ℕ
plus = b'+'

unfoldable pub hex_digit : ℕ → Option ℕ
hex_digit c =
    if leb b'0' c && leb c b'9'
    then some (c - b'0')
    else if leb b'A' c && leb c b'F'
    then some (c - 55)
    else if leb b'a' c && leb c b'f'
    then some (c - 87)
    else none

abbrev two_digits : Option ℕ → Option ℕ → Option ℕ
two_digits (some a) (some b) = some (a * 16 + b)
two_digits (some a) none = none
two_digits none b = none

-- `u8::from_str_radix(h, 16)` on two bytes: a sign may stand in front.
unfoldable pub hex_byte : ℕ → ℕ → Option ℕ
hex_byte a b = if a == plus then hex_digit b else two_digits (hex_digit a) (hex_digit b)

-- The loop over the bytes.
unfoldable pub decoded : Text → Text
decoded [] = []
decoded (c ∷ []) = (if c == plus then b' ' else c) ∷ []
decoded (c ∷ a ∷ []) = (if c == plus then b' ' else c) ∷ decoded (a ∷ [])
decoded (c ∷ a ∷ b ∷ s) = elim (c == percent) [
  | true ↦ elim (hex_byte a b) [ some n ↦ n ∷ decoded s | none ↦ c ∷ decoded (a ∷ b ∷ s) ]
  | false ↦ (if c == plus then b' ' else c) ∷ decoded (a ∷ b ∷ s)
]

-- `from_utf8_lossy` replaces what is not UTF-8: it is the parameter.
unfoldable pub urldecode : (Text → Text) → Text → Text
urldecode lossy s = lossy (decoded s)
