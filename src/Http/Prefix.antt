-- ===== src/Http/Prefix.antt =====
-- `validate_pipeline_prefix` of src/http.rs.
pub mod Grammar
use karet_worker.Common.{
  ℕ, Bool, ◌&&◌, ◌||◌, List, [], ◌∷◌, ◌++◌, ltb, leb, ◌==◌, nat_eq, text_eq, if◌then◌else◌, length,
  is_empty, all,
}
use karet_worker.Common.Result.{Result, ok, err}
use karet_worker.Common.Text.{Text, bytes, starts_with, ends_with_byte, split, drop_last, to_string}

abbrev pub max_prefix_len : ℕ
max_prefix_len = 512

abbrev pub slash : ℕ
slash = b'/'

abbrev pub is_ascii_alphanumeric : ℕ → Bool
is_ascii_alphanumeric b =
    (leb b'0' b && leb b b'9') || ((leb b'A' b && leb b b'Z') || (leb b'a' b && leb b b'z'))

unfoldable pub is_segment_byte : ℕ → Bool
is_segment_byte b = is_ascii_alphanumeric b || (b == b'-' || (b == b'_' || b == b'.'))

-- One round of the loop over the segments.
unfoldable pub check_segment : Text → Result (Unit {0}) Text
check_segment segment =
    if is_empty segment
    then err (bytes "pipeline_prefix must not contain empty path segments")
    else if segment == bytes "." || segment == bytes ".."
    then err (bytes "pipeline_prefix must not contain '.' or '..' segments")
    else if all is_segment_byte segment
    then ok tt
    else err (
        bytes "pipeline_prefix segment '"
        ++ (segment ++ bytes "' contains characters outside [A-Za-z0-9._-]"))

unfoldable pub check_segments : List Text → Result (Unit {0}) Text
check_segments [] = ok tt
check_segments (segment ∷ segments) = elim (check_segment segment) [
  | ok _ ↦ check_segments segments
  | err e ↦ err e
]

unfoldable pub validate_pipeline_prefix : Text → Result (Unit {0}) Text
validate_pipeline_prefix prefix =
    if is_empty prefix
    then err (bytes "pipeline_prefix must not be empty")
    else if ltb max_prefix_len (length prefix)
    then err (
        bytes "pipeline_prefix is too long ("
        ++ (to_string (length prefix)
            ++ (bytes " bytes, max " ++ (to_string max_prefix_len ++ bytes ")"))))
    else if starts_with prefix (bytes "/")
    then err (bytes "pipeline_prefix must not start with '/'")
    else if ends_with_byte prefix slash
    then check_segments (split (drop_last prefix) slash)
    else err (bytes "pipeline_prefix must end with '/'")
