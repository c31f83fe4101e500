-- ===== src/Http/Prefix/Grammar.antt =====
-- What `validate_pipeline_prefix` of src/http.rs lets through.
use karet_worker.Common.{
  ℕ, ◌≤◌, ◌≡◌, ◌≢◌, refl, sym, ◌∙◌, ap, true, List, [], ◌∷◌, ◌++◌, arith, nat_eq, text_eq, length,
  all, All,
}
use karet_worker.Common.Result.{ok}
use karet_worker.Common.Text.{Text, bytes, ends_with_byte, split, drop_last}
use karet_worker.Http.Prefix.{
  max_prefix_len, slash, is_segment_byte, check_segment, check_segments, validate_pipeline_prefix,
}

-- A segment: not empty, of letters, digits, `-`, `_` and `.` only, and neither `.` nor `..`.
abbrev pub IsSegment : Text → Type 0
IsSegment s = (s ≢ []) × ((s ≢ bytes ".") × ((s ≢ bytes "..") × (all is_segment_byte s ≡ true)))

-- Segments, each with a slash behind it.
unfoldable pub path_of : List Text → Text
path_of [] = []
path_of (s ∷ segs) = s ++ (slash ∷ path_of segs)

check_segment-IsSegment : (s : Text) → check_segment s ≡ ok tt → IsSegment s
unfolding check_segment
check_segment-IsSegment [] e = ground (arith, e)
check_segment-IsSegment (c ∷ s) e = ground (arith, e)

check_segments-IsSegment : (segs : List Text) → check_segments segs ≡ ok tt → All IsSegment segs
unfolding check_segments
check_segments-IsSegment [] e = tt
check_segments-IsSegment (s ∷ segs) e = (
  check_segment-IsSegment s (ground (arith, e)),
  check_segments-IsSegment segs (ground (arith, e)),
)

split_ne : (t : Text) → split t slash ≢ []
unfolding split
split_ne [] e = ground (arith, e)
split_ne (c ∷ t) e = ground (arith, e)

path_of-split : (t : Text) → path_of (split t slash) ≡ t ++ (slash ∷ [])
unfolding path_of split
path_of-split [] = refl
path_of-split (c ∷ t) = ground (arith, path_of-split t, split_ne t)

ends_with_byte_split : (t : Text) (c : ℕ) → ends_with_byte t c ≡ true → t ≡ drop_last t ++ (c ∷ [])
unfolding ends_with_byte drop_last
ends_with_byte_split [] c e = ground (arith, e)
ends_with_byte_split (a ∷ []) c e = ground (arith, e)
ends_with_byte_split (a ∷ b ∷ t) c e = ap (λ s. a ∷ s) (ends_with_byte_split (b ∷ t) c e)

-- An accepted prefix is one or more segments, each with a slash behind it, and at most 512 bytes
-- long: so no key that is built on it leaves the prefix by `..`, an empty segment or a leading slash.
pub validate_pipeline_prefix_lem :
    (p : Text)
    → validate_pipeline_prefix p ≡ ok tt
    → (length p ≤ max_prefix_len)
      × ((segs : List Text) × ((p ≡ path_of segs) × ((segs ≢ []) × All IsSegment segs)))
unfolding validate_pipeline_prefix
validate_pipeline_prefix_lem p e =
    let ends : ends_with_byte p slash ≡ true = ground (arith, e) in
    let checked : check_segments (split (drop_last p) slash) ≡ ok tt = ground (arith, e) in
    (
      ground (arith, e),
      (
        split (drop_last p) slash,
        (
          ends_with_byte_split p slash ends ∙ sym (path_of-split (drop_last p)),
          (split_ne (drop_last p), check_segments-IsSegment (split (drop_last p) slash) checked),
        ),
      ),
    )
