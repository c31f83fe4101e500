-- ===== src/Pipeline/Segment.antt =====
-- Partition keys as segments of a path, in src/pipeline.rs.
pub mod Laws
use karet_worker.Common.{
  ℕ, ◌+◌, ◌-◌, ◌/◌, ◌%◌, Bool, true, false, ◌||◌, ◌&&◌, Option, none, some, List, [], ◌∷◌, ◌++◌,
  ◌==◌, nat_eq, leb, ltb, suc, if◌then◌else◌,
}
use karet_worker.Common.Int.{ℤ, pos, negsuc}
use karet_worker.Common.Result.{Result, ok, err}
use karet_worker.Common.Text.{Text, bytes, to_string, is_digit, bool_text}
use karet_worker.Error.{PipelineError, partition}
use karet_worker.Polars.{AnyValue}

-- `b'A'..=b'Z' | b'a'..=b'z' | b'0'..=b'9' | b'.' | b'_' | b'-'`
unfoldable pub unescaped : ℕ → Bool
unescaped b =
    (leb b'A' b && leb b b'Z')
    || ((leb b'a' b && leb b b'z') || (is_digit b || (b == b'.' || (b == b'_' || b == b'-'))))

-- `{b:02X}`
unfoldable pub hex_upper : ℕ → ℕ
hex_upper d = if ltb d 10 then b'0' + d else b'A' + (d - 10)

unfoldable pub encode_segment : Text → Text
encode_segment [] = []
encode_segment (b ∷ s) =
    let rest = encode_segment s in
    if unescaped b then b ∷ rest else b'%' ∷ hex_upper (b / 16) ∷ hex_upper (b % 16) ∷ rest

unfoldable pub int_text : ℤ → Text
int_text (pos n) = to_string n
int_text (negsuc n) = b'-' ∷ to_string (suc n)

abbrev date_text : ℤ → Option Text → Result Text PipelineError
date_text days none =
    err (partition (bytes "date value " ++ (int_text days ++ bytes " out of range")))
date_text days (some t) = ok t

unfoldable pub segment_value : (ℤ → Option Text) → AnyValue → Result Text PipelineError
segment_value iso_date (AnyValue.int8 v) = ok (int_text v)
segment_value iso_date (AnyValue.int16 v) = ok (int_text v)
segment_value iso_date (AnyValue.int32 v) = ok (int_text v)
segment_value iso_date (AnyValue.int64 v) = ok (int_text v)
segment_value iso_date (AnyValue.uint8 v) = ok (to_string v)
segment_value iso_date (AnyValue.uint16 v) = ok (to_string v)
segment_value iso_date (AnyValue.uint32 v) = ok (to_string v)
segment_value iso_date (AnyValue.uint64 v) = ok (to_string v)
segment_value iso_date (AnyValue.boolean v) = ok (bool_text v)
segment_value iso_date (AnyValue.date days) = date_text days (iso_date days)
segment_value iso_date (AnyValue.string v) = ok (encode_segment v)
segment_value iso_date (AnyValue.string_owned v) = ok (encode_segment v)
segment_value iso_date (AnyValue.other shown) =
    err (partition (bytes "unsupported partition key value: " ++ shown))
