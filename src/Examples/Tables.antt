-- ===== src/Examples/Tables.antt =====
-- A table's bucket and a dimension's rows.
use karet_worker.Common.{
  Bool, true, ◌==◌, any, retain, not, ◌&&◌, ◌||◌, ℕ, ◌≡◌, ◌≢◌, refl, ◌⊎◌, false, Option, none, some,
  List, [], ◌∷◌, ◌++◌, nat_eq, text_eq, ℕ_discrete, arith, find, contains,
}
use karet_worker.Common.Dict.{lookup, insert}
use karet_worker.Common.Int.{pos}
use karet_worker.Common.Result.{ok}
use karet_worker.Common.Text.{
  Text, bytes, starts_with, to_string, strip_prefix, strip_suffix, parse_u64,
}
use karet_worker.Manifest.Files.{
  TableManifest, ManifestFile, current_key, manifest_prefix, manifest_key, apply_mapping_writes,
}
use karet_worker.Manifest.Files.Writes.{any-apply_mapping_writes}
use karet_worker.Manifest.Versions.{versions_to_drop, insert_version, sort_versions, take}
use karet_worker.Manifest.Vacuum.{
  filter_map, version_of_key, versions_in, doomed_versions, kept_versions, relative_keys, vacuum,
}
use karet_worker.Manifest.Vacuum.Safe.{vacuum_keeps_files}
use karet_worker.Manifest.Bucket.{Bucket, works, reply_lost, Codec, publish, keys}
use karet_worker.Manifest.Bucket.Publish.{at_version, seen, publish_atomic}
use karet_worker.Dimension.Types.{exact, null, file, Dimension, Unicode, value_columns}
use karet_worker.Dimension.Matcher.{
  CompiledRow, MatcherRow, DimensionMatcher, new_matcher, hit, scan, compile_row, fold, build_index,
  index_rows, index_patterns,
}
use karet_worker.Dimension.Matcher.Best.{IsScan, scan-none-IsScan}
use karet_worker.Dimension.Matcher.Exact.{hit_exact}
use karet_worker.Dimension.Csv.{split_csv_line}
use karet_worker.Dimension.Csv.RoundTrip.{quoted_line, trim_last, split_csv_line-quoted_line}

-- One manifest is all that there is to parse.
abbrev manifest : TableManifest
manifest = record { version = 1; created_at = []; job_id = none; files = [] }

-- A format for it: the version alone.
abbrev pointer_from : Text → Option ℕ
pointer_from [] = none
pointer_from (v ∷ t) = some v

abbrev codec : Codec
codec = record {
  pointer_to_json = λ v. v ∷ [];
  pointer_from_json = pointer_from;
  manifest_to_json = λ m. m.version ∷ [];
  manifest_from_json = λ t. some manifest;
}

-- A bucket with nothing in it; the answer to the second request is lost.
abbrev bucket : Bucket
bucket = record { objects = []; faults = works ∷ reply_lost (bytes "timeout") ∷ [] }

unpublished :
    (t : Text)
    → lookup (bytes "t/" ++ current_key) bucket.objects ≡ some t
    → pointer_from t ≢ some 1
unfolding lookup
unpublished t e = ground (arith, e)

publish_atomic_example :
    let (result, b') = publish codec (bytes "t/") manifest bucket in
    ((seen codec (bytes "t/") b'.objects ≡ seen codec (bytes "t/") [])
      ⊎ (seen codec (bytes "t/") b'.objects ≡ ok manifest))
    × (result ≡ ok tt → seen codec (bytes "t/") b'.objects ≡ ok manifest)
publish_atomic_example =
    publish_atomic codec (bytes "t/") manifest bucket (record { pointer = refl; manifest = refl })
      unpublished

-- A matcher of keywords.
abbrev rows : List CompiledRow
rows =
    record {
      patterns = bytes "safeway" ∷ [];
      values = some (bytes "Groceries") ∷ [];
      priority = pos 0;
    }
    ∷ record {
      patterns = bytes "safeway gas" ∷ [];
      values = some (bytes "Fuel") ∷ [];
      priority = pos 10;
    }
    ∷ []

scan-none-IsScan_example :
    IsScan (bytes "safeway gas 1") rows (scan (bytes "safeway gas 1") rows none)
scan-none-IsScan_example = scan-none-IsScan (bytes "safeway gas 1") rows

abbrev unicode : Unicode
unicode = record {
  to_lowercase = λ t. t;
  utf8_error = λ t. none;
  trim = λ t. t;
  trim_start = λ t. t;
}

abbrev dim : Dimension
dim = record {
  id = bytes "codes";
  name = none;
  match_mode = exact;
  case_insensitive = none;
  on_miss = null;
  rows = file [] (bytes "code") (bytes "country" ∷ []) none;
}

abbrev code_rows : List MatcherRow
code_rows =
    record { keys = bytes "CA" ∷ []; cells = some (bytes "Canada") ∷ []; weight = pos 0 }
    ∷ record { keys = bytes "DE" ∷ []; cells = some (bytes "Germany") ∷ []; weight = pos 0 }
    ∷ []

abbrev compiled : List CompiledRow
compiled =
    record { patterns = bytes "CA" ∷ []; values = some (bytes "Canada") ∷ []; priority = pos 0 }
    ∷ record { patterns = bytes "DE" ∷ []; values = some (bytes "Germany") ∷ []; priority = pos 0 }
    ∷ []

abbrev matcher : DimensionMatcher
matcher = record {
  rows = compiled;
  value_columns = bytes "country" ∷ [];
  match_mode = exact;
  case_insensitive = false;
  on_miss = null;
  exact_index = (bytes "CA", 0) ∷ (bytes "DE", 1) ∷ [];
}

built : new_matcher unicode dim code_rows ≡ ok matcher
unfolding new_matcher compile_row fold build_index index_rows index_patterns lookup insert
    value_columns bytes text_eq nat_eq ℕ_discrete
built = refl

hit_exact_example :
    hit matcher exact (bytes "DE") ≡ find (λ row. contains row.patterns (bytes "DE")) compiled
hit_exact_example = hit_exact unicode dim code_rows matcher (bytes "DE") refl built

split_csv_line-quoted_line_example :
    split_csv_line (quoted_line (bytes "DE") (bytes "Germany, \"Fed. Rep.\"" ∷ []))
    ≡ trim_last (bytes "DE") (bytes "Germany, \"Fed. Rep.\"" ∷ [])
split_csv_line-quoted_line_example =
    split_csv_line-quoted_line (bytes "DE") (bytes "Germany, \"Fed. Rep.\"" ∷ [])

-- A table of one version with one file, and an orphan.
abbrev file_of_1 : ManifestFile
file_of_1 = record { key = bytes "v1/a.parquet"; mapping_id = bytes "m"; bytes = 10 }

abbrev written : TableManifest
written = record { version = 1; created_at = []; job_id = none; files = file_of_1 ∷ [] }

abbrev table_codec : Codec
table_codec = record {
  pointer_to_json = λ v. v ∷ [];
  pointer_from_json = pointer_from;
  manifest_to_json = λ m. m.version ∷ [];
  manifest_from_json = λ t. some written;
}

abbrev table_bucket : Bucket
table_bucket = record {
  objects =
      (bytes "t/_manifests/1.json", [])
      ∷ (bytes "t/v1/a.parquet", [])
      ∷ (bytes "t/v0/b.parquet", [])
      ∷ [];
  faults = works ∷ works ∷ reply_lost (bytes "timeout") ∷ [];
}

stays_readable :
    contains
      (kept_versions 1 (
        versions_in (
          relative_keys
            (bytes "t/")
            (retain (λ j. starts_with j (bytes "t/")) (keys table_bucket.objects)))))
      1
    ≡ true
unfolding kept_versions doomed_versions versions_in relative_keys filter_map version_of_key
    strip_prefix strip_suffix parse_u64 versions_to_drop insert_version sort_versions take
    starts_with bytes text_eq nat_eq ℕ_discrete
stays_readable = refl

manifest_there : at_version table_codec (bytes "t/") table_bucket.objects 1 ≡ ok written
unfolding lookup manifest_key to_string bytes text_eq nat_eq ℕ_discrete
manifest_there = refl

file_there : any (λ f. f.key == bytes "v1/a.parquet") written.files ≡ true
unfolding bytes text_eq nat_eq ℕ_discrete
file_there = refl

no_manifest : starts_with (bytes "v1/a.parquet") manifest_prefix ≡ false
unfolding starts_with bytes nat_eq ℕ_discrete
no_manifest = refl

vacuum_keeps_files_example :
    lookup
      (bytes "t/" ++ bytes "v1/a.parquet")
      (vacuum table_codec (bytes "t/") 1 table_bucket).1.objects
    ≡ lookup (bytes "t/" ++ bytes "v1/a.parquet") table_bucket.objects
vacuum_keeps_files_example =
    vacuum_keeps_files table_codec (bytes "t/") 1 1 written (bytes "v1/a.parquet") table_bucket
      stays_readable manifest_there file_there no_manifest

abbrev is_a : ManifestFile → Bool
is_a f = f.key == bytes "v1/a.parquet"

any-apply_mapping_writes_example :
    any is_a (apply_mapping_writes (file_of_1 ∷ []) (bytes "n") [])
    ≡ (any (λ f. not (f.mapping_id == bytes "n") && is_a f) (file_of_1 ∷ []) || any is_a [])
any-apply_mapping_writes_example = any-apply_mapping_writes is_a (file_of_1 ∷ []) (bytes "n") []
