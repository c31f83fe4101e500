-- ===== src/Http/Decode/RoundTrip.antt =====
-- `urldecode` of src/http.rs on encoded keys.
use karet_worker.Common.{
  ℕ, ◌+◌, ◌/◌, ◌%◌, ◌<◌, ◌≡◌, refl, ap, ◌∙◌, Bool, true, false, some, [], ◌∷◌, arith, ◌==◌, ==_iff,
  Bool-cases, inl, inr, nat_eq, ℕ_discrete, ltb, All, if◌then◌else◌,
}
use karet_worker.Common.Text.{Text}
use karet_worker.Http.Decode.{percent, plus, urldecode, hex_digit, hex_byte, decoded}

-- Upper-case hexadecimal digits.
unfoldable pub digit : ℕ → ℕ
digit n = if ltb n 10 then b'0' + n else 55 + n

-- What an S3 event does to a key: `keeps c` says which bytes stay as they are.
unfoldable pub encoded : (ℕ → Bool) → Text → Text
encoded keeps [] = []
encoded keeps (c ∷ s) =
    let rest = encoded keeps s in
    if c == b' '
    then b'+' ∷ rest
    else if keeps c
    then c ∷ rest
    else percent ∷ digit (c / 16) ∷ digit (c % 16) ∷ rest

hex_digit-digit : (n : ℕ) → n < 16 → hex_digit (digit n) ≡ some n
unfolding hex_digit digit
hex_digit-digit n h = ground arith

hex_byte-digits : (c : ℕ) → c < 256 → hex_byte (digit (c / 16)) (digit (c % 16)) ≡ some c
unfolding hex_byte digit
hex_byte-digits c h =
    ground
      (arith, hex_digit-digit (c / 16) (omega (arith, h)), hex_digit-digit (c % 16) (omega arith))

-- The steps of the loop.
pub step_percent :
    (a b n : ℕ) (s : Text) → hex_byte a b ≡ some n → decoded (percent ∷ a ∷ b ∷ s) ≡ n ∷ decoded s
unfolding decoded nat_eq ℕ_discrete
step_percent a b n s e = ground (arith, e)

step_plus : (s : Text) → decoded (plus ∷ s) ≡ b' ' ∷ decoded s
unfolding decoded nat_eq ℕ_discrete
step_plus [] = refl
step_plus (a ∷ []) = refl
step_plus (a ∷ b ∷ s) = refl

pub step_plain :
    (c : ℕ) (s : Text)
    → (c == percent) ≡ false
    → (c == plus) ≡ false
    → decoded (c ∷ s) ≡ c ∷ decoded s
unfolding decoded
step_plain c [] n m = ground (arith, n, m)
step_plain c (a ∷ []) n m = ground (arith, n, m)
step_plain c (a ∷ b ∷ s) n m = ground (arith, n, m)

decoded-encoded :
    (keeps : ℕ → Bool) (s : Text)
    → All (λ c. c < 256) s
    → keeps percent ≡ false
    → keeps plus ≡ false
    → decoded (encoded keeps s) ≡ s
unfolding encoded
decoded-encoded keeps [] bounded p q = unfold decoded in refl
decoded-encoded keeps (c ∷ s) (hc, hs) p q = elim (Bool-cases (c == b' ')) [
  | inl e ↦ ground (arith, e, step_plus (encoded keeps s), decoded-encoded keeps s hs p q)
  | inr e ↦ elim (Bool-cases (keeps c)) [
    | inl k ↦ ground (
      arith,
      e,
      k,
      decoded-encoded keeps s hs p q,
      step_plain c (encoded keeps s) (other c percent k p) (other c plus k q),
    )
    | inr k ↦ ground (
      arith,
      e,
      k,
      decoded-encoded keeps s hs p q,
      step_percent (digit (c / 16)) (digit (c % 16)) c (encoded keeps s) (hex_byte-digits c hc),
    )
  ]
]
  where
    other : (a b : ℕ) → keeps a ≡ true → keeps b ≡ false → (a == b) ≡ false
    other a b k n = elim (Bool-cases (a == b)) [
      | inl e ↦ ground (arith, k, n, ap keeps ((==_iff a b).0 e))
      | inr e ↦ e
    ]

-- Decoding a key that was encoded, with `+` for a space and `%XX` for the bytes that are not kept,
-- gives the key back. Conditions: a key of bytes that `from_utf8_lossy` leaves as it is, as it does
-- with every valid UTF-8, and neither `%` nor `+` is kept as it is.
pub urldecode-encoded :
    (lossy : Text → Text) (keeps : ℕ → Bool) (s : Text)
    → All (λ c. c < 256) s
    → lossy s ≡ s
    → keeps percent ≡ false
    → keeps plus ≡ false
    → urldecode lossy (encoded keeps s) ≡ s
unfolding urldecode
urldecode-encoded lossy keeps s bounded utf8 p q =
    ap lossy (decoded-encoded keeps s bounded p q) ∙ utf8
