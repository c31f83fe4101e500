-- ===== src/Dimension/Csv.antt =====
-- Reading a dimension's rows from a CSV file: `rows_from_csv` and `split_csv_line` of
-- src/dimension.rs.
pub mod RoundTrip
use karet_worker.Common.{
  ℕ, suc, Bool, true, false, ◌&&◌, not, Option, none, some, List, [], ◌∷◌, ◌++◌, map, ◌==◌, nat_eq,
  ltb, leb, length, get_elem?, is_empty, retain, if◌then◌else◌, ◌-◌, ◌^◌, ◌+◌,
}
use karet_worker.Common.Int.{ℤ, pos, negsuc}
use karet_worker.Common.Result.{Result, ok, err, ◌>>=◌}
use karet_worker.Common.Text.{Text, bytes, split, strip_suffix, parse_i64}
use karet_worker.Dimension.Types.{
  Dimension, DimensionError, too_many_rows, missing_column, file_read, Unicode,
}
use karet_worker.Dimension.Matcher.{MatcherRow, max_dimension_rows, position}

abbrev pub quote : ℕ
quote = b'"'

abbrev pub comma : ℕ
comma = b','

abbrev pub carriage_return : ℕ
carriage_return = 13

abbrev newline : ℕ
newline = 10

-- `trim_end_matches('\r')`
unfoldable pub trim_cr : Text → Text
trim_cr [] = []
trim_cr (c ∷ s) = elim (trim_cr s) [
  | [] ↦ if c == carriage_return then [] else c ∷ []
  | d ∷ t ↦ c ∷ d ∷ t
]

-- The loop over the characters: whether a quote is open, and the field so far.
unfoldable pub csv_fields : Bool → Text → Text → List Text
csv_fields in_quotes field [] = trim_cr field ∷ []
csv_fields in_quotes field (c ∷ []) =
    if c == quote
    then csv_fields (not in_quotes) field []
    else if (c == comma) && not in_quotes
    then field ∷ csv_fields in_quotes [] []
    else csv_fields in_quotes (field ++ (c ∷ [])) []
csv_fields in_quotes field (c ∷ d ∷ s) = elim (c == quote) [
  | true ↦ elim (in_quotes && (d == quote)) [
    | true ↦ csv_fields in_quotes (field ++ (quote ∷ [])) s
    | false ↦ csv_fields (not in_quotes) field (d ∷ s)
  ]
  | false ↦ elim ((c == comma) && not in_quotes) [
    | true ↦ field ∷ csv_fields in_quotes [] (d ∷ s)
    | false ↦ csv_fields in_quotes (field ++ (c ∷ [])) (d ∷ s)
  ]
]

unfoldable pub split_csv_line : Text → List Text
split_csv_line line = csv_fields false [] line

-- `str::lines`: no piece behind a newline at the end, and no `\r` before a newline.
abbrev strip_cr : Text → Text
strip_cr s = elim (strip_suffix s (carriage_return ∷ [])) [ some t ↦ t | none ↦ s ]

abbrev line_pieces : List Text → List Text
line_pieces [] = []
line_pieces (last ∷ []) = if is_empty last then [] else last ∷ []
line_pieces (l ∷ k ∷ ls) = strip_cr l ∷ line_pieces (k ∷ ls)

unfoldable pub lines : Text → List Text
lines s = line_pieces (split s newline)

unfoldable pub column : Dimension → List Text → Text → Result ℕ DimensionError
column dim header name = elim (position name header) [
  | some i ↦ ok i
  | none ↦ err (missing_column dim.id name)
]

unfoldable pub columns : Dimension → List Text → List Text → Result (List ℕ) DimensionError
columns dim header [] = ok []
columns dim header (name ∷ names) = elim (column dim header name) [
  | err e ↦ err e
  | ok i ↦ elim (columns dim header names) [ ok is ↦ ok (i ∷ is) | err e ↦ err e ]
]

unfoldable pub optional_column :
    Dimension → List Text → Option Text → Result (Option ℕ) DimensionError
optional_column dim header none = ok none
optional_column dim header (some name) = elim (column dim header name) [
  | ok i ↦ ok (some i)
  | err e ↦ err e
]

abbrev or_empty : Option Text → Text
or_empty none = []
or_empty (some t) = t

abbrev or_zero : Option ℤ → ℤ
or_zero none = pos 0
or_zero (some z) = z

abbrev parsed : Option Text → Option ℤ
parsed none = none
parsed (some p) = parse_i64 p

unfoldable pub priority_of : Option ℕ → List Text → ℤ
priority_of none fields = pos 0
priority_of (some i) fields = or_zero (parsed (get_elem? fields i))

-- One line that has a key.
unfoldable pub row_of : Text → List ℕ → Option ℕ → List Text → MatcherRow
row_of key_value value_idxs priority_idx fields = record {
  keys = key_value ∷ [];
  cells = map (get_elem? fields) value_idxs;
  weight = priority_of priority_idx fields;
}

-- The loop over the lines; `count` rows are out already.
unfoldable pub read_lines :
    Dimension → ℕ → List ℕ → Option ℕ → ℕ → List Text → Result (List MatcherRow) DimensionError
read_lines dim key_idx value_idxs priority_idx count [] = ok []
read_lines dim key_idx value_idxs priority_idx count (line ∷ rest) =
    let fields = split_csv_line line in
    let key_value = or_empty (get_elem? fields key_idx) in
    if is_empty key_value
    then read_lines dim key_idx value_idxs priority_idx count rest
    else if ltb max_dimension_rows (suc count)
    then err (too_many_rows dim.id (suc count) max_dimension_rows)
    else elim (read_lines dim key_idx value_idxs priority_idx (suc count) rest) [
      | ok rows ↦ ok (row_of key_value value_idxs priority_idx fields ∷ rows)
      | err e ↦ err e
    ]

unfoldable pub read_table :
    Dimension → Text → List Text → Option Text → List Text → Result (List MatcherRow) DimensionError
read_table dim key values priority_column [] = err (file_read dim.id (bytes "file is empty"))
read_table dim key values priority_column (header_line ∷ body) = do
  let header = split_csv_line header_line
  key_idx ← column dim header key
  value_idxs ← columns dim header values
  priority_idx ← optional_column dim header priority_column
  read_lines dim key_idx value_idxs priority_idx 0 body

unfoldable pub rows_from_csv :
    Unicode
    → Dimension
    → Text
    → List Text
    → Option Text
    → Text
    → Result (List MatcherRow) DimensionError
rows_from_csv u dim key values priority_column text = elim (u.utf8_error text) [
  | some e ↦ err (file_read dim.id (bytes "invalid UTF-8: " ++ e))
  | none ↦
      read_table dim key values priority_column
        (retain (λ l. not (is_empty (u.trim l))) (lines text))
]
