-- ===== src/Common/Text.antt =====
-- Rust's `&str` and `String` as the bytes of their UTF-8 form, with the methods of the standard
-- library that the worker calls. All that it searches for is ASCII, so that a walk over the
-- characters and a walk over the bytes split a text at the same places.
pub mod Decimal
pub mod Parse
use Prim.Native.Nat.{ℕ, zero, suc, ◌+◌, ◌-◌, ◌*◌, ◌/◌, ◌%◌, ◌^◌}
use Prim.Native.Char.{code}
use Prim.Native.String.{String}
use mathlib.Core.Path.{◌≡◌, refl, ap}
use mathlib.Core.Bool.{Bool, true, false, ◌&&◌, ◌||◌}
use mathlib.Core.List.{List, [], ◌∷◌, ◌++◌, reverse}
use mathlib.Core.Option.{Option, none, some}
use native.Mathlib.Omega.{arith}
use native.Mathlib.Decide.{ℕ_discrete}
use karet_worker.Common.Eq.{Eq, ◌==◌, nat_eq, text_eq, leb, ltb, if◌then◌else◌}
use karet_worker.Common.Int.{ℤ, pos, sub_ℕ}
use karet_worker.Common.Lists.{length}

abbrev pub Text : Type 0
Text = List ℕ

-- A literal of the source. Shut in proofs, where a literal is a constant.
unfoldable pub bytes : String → Text
bytes String.[] = []
bytes (String.◌∷◌ c s) = code c ∷ bytes s

unfoldable pub starts_with : Text → Text → Bool
starts_with s [] = true
starts_with [] (p ∷ ps) = false
starts_with (c ∷ s) (p ∷ ps) = c == p && starts_with s ps

unfoldable pub strip_prefix : Text → Text → Option Text
strip_prefix s [] = some s
strip_prefix [] (p ∷ ps) = none
strip_prefix (c ∷ s) (p ∷ ps) = let rest = strip_prefix s ps in if c == p then rest else none

-- The last byte of a text is the separator.
unfoldable pub ends_with_byte : Text → ℕ → Bool
ends_with_byte [] c = false
ends_with_byte (a ∷ []) c = a == c
ends_with_byte (a ∷ b ∷ s) c = ends_with_byte (b ∷ s) c

unfoldable pub ends_with : Text → Text → Bool
ends_with [] t = [] == t
ends_with (c ∷ s) t = (c ∷ s) == t || ends_with s t

unfoldable pub contains_text : Text → Text → Bool
unfolding starts_with
contains_text [] t = starts_with [] t
contains_text (c ∷ s) t = starts_with (c ∷ s) t || contains_text s t

-- `split`: one piece more than there are separators, empty pieces included.
push_head : ℕ → List Text → List Text
push_head c [] = (c ∷ []) ∷ []
push_head c (seg ∷ segs) = (c ∷ seg) ∷ segs

unfoldable pub split : Text → ℕ → List Text
unfolding push_head
split [] sep = [] ∷ []
split (c ∷ s) sep = let rest = split s sep in if c == sep then [] ∷ rest else push_head c rest

unfoldable pub split_once : Text → ℕ → Option (Text × Text)
split_once [] sep = none
split_once (c ∷ s) sep = elim (c == sep) [
  | true ↦ some ([], s)
  | false ↦ elim (split_once s sep) [ none ↦ none | some (a, b) ↦ some (c ∷ a, b) ]
]

-- `&s[..s.len() - 1]`
unfoldable pub drop_last : Text → Text
drop_last [] = []
drop_last (a ∷ []) = []
drop_last (a ∷ b ∷ s) = a ∷ drop_last (b ∷ s)

unfoldable pub join : Text → List Text → Text
join sep [] = []
join sep (t ∷ []) = t
join sep (t ∷ u ∷ ts) = t ++ (sep ++ join sep (u ∷ ts))

-- Decimal rendering, most significant digit first. `fuel` is at least the number of digits: n itself.
digits_onto : ℕ → ℕ → Text → Text
digits_onto zero n out = out
digits_onto (suc fuel) n out =
    let out' = (b'0' + n % 10) ∷ out in
    let rest = digits_onto fuel (n / 10) out' in if ltb n 10 then out' else rest

unfoldable pub to_string : ℕ → Text
unfolding digits_onto
to_string n = digits_onto (suc n) n []

-- The order of `str`: bytewise, a proper prefix first.
unfoldable pub text_le : Text → Text → Bool
text_le [] t = true
text_le (a ∷ s) [] = false
text_le (a ∷ s) (b ∷ t) = ltb a b || (a == b && text_le s t)

unfoldable pub strip_suffix : Text → Text → Option Text
strip_suffix [] t = if [] == t then some [] else none
strip_suffix (c ∷ s) t =
    let rest = strip_suffix s t in
    if (c ∷ s) == t then some [] else elim rest [ none ↦ none | some u ↦ some (c ∷ u) ]

abbrev pub is_digit : ℕ → Bool
is_digit c = leb b'0' c && leb c b'9'

-- The digits of a number, at least one of them.
digits_value : ℕ → Text → Option ℕ
digits_value acc [] = some acc
digits_value acc (c ∷ s) = if is_digit c then digits_value (acc * 10 + (c - b'0')) s else none

unsigned : Text → Option ℕ
unsigned [] = none
unsigned (c ∷ s) = digits_value 0 (c ∷ s)

abbrev below : ℕ → Option ℕ → Option ℕ
below limit none = none
below limit (some n) = if ltb n limit then some n else none

-- `parse::<u64>()`: an optional `+`, digits, no overflow.
unfoldable pub parse_u64 : Text → Option ℕ
unfolding unsigned digits_value
parse_u64 [] = none
parse_u64 (c ∷ s) = below (2 ^ 64) (if c == b'+' then unsigned s else unsigned (c ∷ s))

abbrev from_magnitude : Bool → Option ℕ → Option ℤ
from_magnitude negative none = none
from_magnitude negative (some n) =
    if negative
    then (if leb n (2 ^ 63) then some (sub_ℕ 0 n) else none)
    else (if ltb n (2 ^ 63) then some (pos n) else none)

-- `parse::<i64>()`: an optional sign, digits, no overflow.
unfoldable pub parse_i64 : Text → Option ℤ
unfolding unsigned digits_value
parse_i64 [] = none
parse_i64 (c ∷ s) =
    if c == b'-'
    then from_magnitude true (unsigned s)
    else from_magnitude false (if c == b'+' then unsigned s else unsigned (c ∷ s))

unfoldable pub bool_text : Bool → Text
bool_text true = bytes "true"
bool_text false = bytes "false"
