-- ===== src/Pipeline/Segment/Laws.antt =====
-- `encode_segment` and `segment_value` of src/pipeline.rs: what a segment is made of, and reading an
-- encoded one back.
use karet_worker.Common.{
  ℕ, suc, ◌/◌, ◌%◌, ◌<◌, ◌≡◌, refl, ap, sym, ◌∙◌, Bool, true, false, not, Option, some, [], ◌∷◌,
  ◌==◌, nat_eq, ℕ_discrete, all, All, Bool-cases, Option-cases, inl, inr, arith,
}
use karet_worker.Common.Int.{ℤ, pos, negsuc}
use karet_worker.Common.Result.{Result, ok}
use karet_worker.Common.Text.{Text, bytes, is_digit, to_string, bool_text}
use karet_worker.Common.Text.Parse.{all-to_string}
use karet_worker.Http.Decode
use karet_worker.Http.Decode.{percent, plus, urldecode, decoded, hex_byte}
use karet_worker.Http.Decode.RoundTrip.{step_percent, step_plain}
use karet_worker.Error.{PipelineError}
use karet_worker.Polars.{AnyValue}
use karet_worker.Pipeline.Segment.{unescaped, hex_upper, encode_segment, int_text, segment_value}

abbrev pub no_slash : Text → Bool
no_slash t = all (λ c. not (c == b'/')) t

hex_byte-hex_upper : (b : ℕ) → b < 256 → hex_byte (hex_upper (b / 16)) (hex_upper (b % 16)) ≡ some b
unfolding hex_byte Decode.hex_digit hex_upper
hex_byte-hex_upper b h = ground arith

unescaped_plain : (b : ℕ) → unescaped b ≡ true → ((b == percent) ≡ false) × ((b == plus) ≡ false)
unfolding unescaped
unescaped_plain b h = ground arith

decoded-encode_segment : (s : Text) → All (λ c. c < 256) s → decoded (encode_segment s) ≡ s
unfolding encode_segment
decoded-encode_segment [] h = unfold decoded in refl
decoded-encode_segment (b ∷ s) (hb, hs) = elim (Bool-cases (unescaped b)) [
  | inl kept ↦ rw kept (
      step_plain b (encode_segment s) (unescaped_plain b kept).0 (unescaped_plain b kept).1
      ∙ ap (λ t. b ∷ t) (decoded-encode_segment s hs))
  | inr escaped ↦ rw escaped (
      step_percent (hex_upper (b / 16)) (hex_upper (b % 16)) b (encode_segment s)
        (hex_byte-hex_upper b hb)
      ∙ ap (λ t. b ∷ t) (decoded-encode_segment s hs))
]

-- Different texts of bytes have different segments.
pub encode_segment_inj :
    (s t : Text)
    → All (λ c. c < 256) s
    → All (λ c. c < 256) t
    → encode_segment s ≡ encode_segment t
    → s ≡ t
encode_segment_inj s t hs ht e =
    sym (decoded-encode_segment s hs) ∙ ap decoded e ∙ decoded-encode_segment t ht

-- Percent-decoding a segment gives the text back, in the form that `from_utf8_lossy` gives it.
-- Condition: a text of bytes.
pub urldecode-encode_segment :
    (lossy : Text → Text) (s : Text)
    → All (λ c. c < 256) s
    → urldecode lossy (encode_segment s) ≡ lossy s
unfolding urldecode
urldecode-encode_segment lossy s h = ap lossy (decoded-encode_segment s h)

slash_free : (b : ℕ) → unescaped b ≡ true → not (b == b'/') ≡ true
unfolding unescaped
slash_free b h = ground arith

hex_upper_slash : (d : ℕ) → not (hex_upper d == b'/') ≡ true
unfolding hex_upper
hex_upper_slash d = ground arith

no_slash-encode_segment : (s : Text) → no_slash (encode_segment s) ≡ true
unfolding encode_segment
no_slash-encode_segment [] = refl
no_slash-encode_segment (b ∷ s) = elim (Bool-cases (unescaped b)) [
  | inl kept ↦ rw (kept) (rw (slash_free b kept) (no_slash-encode_segment s))
  | inr escaped ↦ ground (
    arith,
    escaped,
    hex_upper_slash (b / 16),
    hex_upper_slash (b % 16),
    no_slash-encode_segment s,
  )
]

no_slash_digits : (t : Text) → all is_digit t ≡ true → no_slash t ≡ true
no_slash_digits [] h = refl
no_slash_digits (c ∷ t) h = ground (arith, no_slash_digits t)

no_slash-to_string : (n : ℕ) → no_slash (to_string n) ≡ true
no_slash-to_string n = no_slash_digits (to_string n) (all-to_string n)

no_slash-int_text : (z : ℤ) → no_slash (int_text z) ≡ true
unfolding int_text
no_slash-int_text (pos n) = no_slash-to_string n
no_slash-int_text (negsuc n) = ground (arith, no_slash-to_string (suc n))

no_slash-bool_text : (b : Bool) → no_slash (bool_text b) ≡ true
unfolding bool_text bytes nat_eq ℕ_discrete
no_slash-bool_text true = refl
no_slash-bool_text false = refl

same_text :
    (a : Text) {t : Text}
    → no_slash a ≡ true
    → ◌≡◌ {A = Result Text PipelineError} (ok a) (ok t)
    → no_slash t ≡ true
same_text a {t} h e = let same : a ≡ t = ground (arith, e) in rw (← same) h

-- No value of a partition key puts a slash into the path. Condition: the forms of dates have none.
pub no_slash-segment_value :
    (iso_date : ℤ → Option Text)
    → ((days : ℤ) (t : Text) → iso_date days ≡ some t → no_slash t ≡ true)
    → (v : AnyValue) {t : Text} → segment_value iso_date v ≡ ok t
    → no_slash t ≡ true
unfolding segment_value
no_slash-segment_value iso_date clean (AnyValue.int8 v) e = same_text _ (no_slash-int_text v) e
no_slash-segment_value iso_date clean (AnyValue.int16 v) e = same_text _ (no_slash-int_text v) e
no_slash-segment_value iso_date clean (AnyValue.int32 v) e = same_text _ (no_slash-int_text v) e
no_slash-segment_value iso_date clean (AnyValue.int64 v) e = same_text _ (no_slash-int_text v) e
no_slash-segment_value iso_date clean (AnyValue.uint8 v) e = same_text _ (no_slash-to_string v) e
no_slash-segment_value iso_date clean (AnyValue.uint16 v) e = same_text _ (no_slash-to_string v) e
no_slash-segment_value iso_date clean (AnyValue.uint32 v) e = same_text _ (no_slash-to_string v) e
no_slash-segment_value iso_date clean (AnyValue.uint64 v) e = same_text _ (no_slash-to_string v) e
no_slash-segment_value iso_date clean (AnyValue.boolean v) e = same_text _ (no_slash-bool_text v) e
no_slash-segment_value iso_date clean (AnyValue.string v) e =
    same_text _ (no_slash-encode_segment v) e
no_slash-segment_value iso_date clean (AnyValue.string_owned v) e =
    same_text _ (no_slash-encode_segment v) e
no_slash-segment_value iso_date clean (AnyValue.date days) {t} e =
    elim (Option-cases (iso_date days)) [
      | inl none_there ↦ absurd (ground (arith, none_there, e))
      | inr (d, shown) ↦
          let same : d ≡ t = ground (arith, shown, e) in rw (← same) (clean days d shown)
    ]
no_slash-segment_value iso_date clean (AnyValue.other shown) e = absurd (ground (arith, e))
