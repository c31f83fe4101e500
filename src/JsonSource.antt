-- ===== src/JsonSource.antt =====
-- src/json_source.rs: reading a source of JSON objects, one to a line, into a data frame.
pub mod Paths
pub mod Columns
use karet_worker.Common.{
  ℕ, zero, suc, Bool, true, false, Option, none, some, List, [], ◌∷◌, ◌++◌, map, ◌==◌, nat_eq,
  text_eq, length, get_elem?, is_empty, if◌then◌else◌,
}
use karet_worker.Common.Dict.{Dict}
use karet_worker.Common.Float.{Floats}
use karet_worker.Common.Int.{ℤ}
use karet_worker.Common.Result.{Result, ok, err, ◌>>=◌, map_err}
use karet_worker.Common.Text.{Text, bytes, is_digit, bool_text, parse_u64, parse_i64}
use karet_worker.Config.Types.{ColumnSchema, SourceFormat, csv, ndjson, SourceContainer}
use karet_worker.Dimension.Types.{Unicode}
use karet_worker.Dimension.Csv.{lines}
use karet_worker.Polars.{Polars}

pub data Step : Type 0 where
  key : Text → Step
  index : ℕ → Step

abbrev pub malformed_index : Text → Text
malformed_index path = bytes "malformed array index in path '" ++ (path ++ bytes "'")

-- `if !cur.is_empty() { steps.push(Step::Key(cur)) }`
abbrev pub push_key : Text → List Step → List Step
push_key cur steps = if is_empty cur then steps else steps ++ (key cur ∷ [])

abbrev pub end_of_path : Text → List Step → Result (List Step) Text
end_of_path path [] = err (bytes "empty path '" ++ (path ++ bytes "'"))
end_of_path path (step ∷ steps) = ok (step ∷ steps)

-- The loop over the characters. Within brackets, the digits so far.
unfoldable pub path_steps : Text → Option Text → List Step → Text → Text → Result (List Step) Text
path_steps path none steps cur [] = end_of_path path (push_key cur steps)
path_steps path none steps cur (c ∷ s) = elim (c == b'.') [
  | true ↦ path_steps path none (push_key cur steps) [] s
  | false ↦ elim (c == b'[') [
    | true ↦ path_steps path (some []) (push_key cur steps) [] s
    | false ↦ path_steps path none steps (cur ++ (c ∷ [])) s
  ]
]
path_steps path (some digits) steps cur [] = err (malformed_index path)
path_steps path (some digits) steps cur (c ∷ s) = elim (c == b']') [
  | true ↦ elim (parse_u64 digits) [
    | none ↦ err (malformed_index path)
    | some i ↦ path_steps path none (steps ++ (index i ∷ [])) cur s
  ]
  | false ↦ elim (is_digit c) [
    | true ↦ path_steps path (some (digits ++ (c ∷ []))) steps cur s
    | false ↦ err (malformed_index path)
  ]
]

unfoldable pub compile_path : Text → Result (List Step) Text
compile_path path = path_steps path none [] [] path

-- The values of serde_json. `N` stands for its numbers.
mutual
  pub data Value (N : Type 0) : Type 0 where
    null : Value N
    bool : Bool → Value N
    number : N → Value N
    string : Text → Value N
    array : Values N → Value N
    object : Fields N → Value N

  pub data Values (N : Type 0) : Type 0 where
    no_values : Values N
    value : Value N → Values N → Values N

  pub data Fields (N : Type 0) : Type 0 where
    no_fields : Fields N
    field : Text → Value N → Fields N → Fields N

-- serde_json's numbers and its parser.
pub record Json (F : Type 0) : Type 1 where
  pub Number : Type 0
  pub number_to_string : Number → Text
  pub as_i64 : Number → Option ℤ
  pub as_f64 : Number → Option F
  pub from_str : Text → Option (Value Number)

module _ {N : Type 0} where
  unfoldable pub get_field : Text → Fields N → Option (Value N)
  get_field k no_fields = none
  get_field k (field j v fs) = if k == j then some v else get_field k fs

  unfoldable pub get_value : ℕ → Values N → Option (Value N)
  get_value i no_values = none
  get_value zero (value v vs) = some v
  get_value (suc i) (value v vs) = get_value i vs

  unfoldable pub step_into : Step → Value N → Option (Value N)
  step_into (key k) (object fs) = get_field k fs
  step_into (index i) (array vs) = get_value i vs
  step_into step v = none

  unfoldable pub resolve : Value N → List Step → Option (Value N)
  resolve v [] = some v
  resolve v (step ∷ steps) = elim (step_into step v) [ none ↦ none | some w ↦ resolve w steps ]

-- One typed vector for each column.
pub data Builder (F : Type 0) : Type 0 where
  str : List (Option Text) → Builder F
  i64 : List (Option ℤ) → Builder F
  f64 : List (Option F) → Builder F
  bools : List (Option Bool) → Builder F

abbrev map_option {ℓ κ} : {A : Type ℓ} {B : Type κ} → (A → B) → Option A → Option B
map_option f none = none
map_option f (some a) = some (f a)

module _ {F : Type 0} (floats : Floats F) (json : Json F) where
  open json use {Number}

  unfoldable pub for_type : Text → Builder F
  for_type type_name =
      if type_name == bytes "int64"
      then i64 []
      else if type_name == bytes "number"
      then f64 []
      else if type_name == bytes "float64"
      then f64 []
      else if type_name == bytes "bool"
      then bools []
      else str []

  unfoldable pub cell_text : Option (Value Number) → Option Text
  cell_text (some (string s)) = some s
  cell_text (some (number n)) = some (json.number_to_string n)
  cell_text (some (bool b)) = some (bool_text b)
  cell_text v = none

  abbrev integer : Option ℤ → Option F → Option ℤ
  integer (some i) f = some i
  integer none f = map_option floats.as_i64 f

  unfoldable pub as_integer : Option (Value Number) → Option ℤ
  as_integer (some (number n)) = integer (json.as_i64 n) (json.as_f64 n)
  as_integer (some (string s)) = parse_i64 s
  as_integer v = none

  unfoldable pub as_float : Option (Value Number) → Option F
  as_float (some (number n)) = json.as_f64 n
  as_float (some (string s)) = floats.parse s
  as_float v = none

  unfoldable pub as_bool : Option (Value Number) → Option Bool
  as_bool (some (bool b)) = some b
  as_bool v = none

  -- One cell more, null where the value does not fit the column.
  unfoldable pub push : Builder F → Option (Value Number) → Builder F
  push (str v) x = str (v ++ (cell_text x ∷ []))
  push (i64 v) x = i64 (v ++ (as_integer x ∷ []))
  push (f64 v) x = f64 (v ++ (as_float x ∷ []))
  push (bools v) x = bools (v ++ (as_bool x ∷ []))

  module _ (u : Unicode) where
    abbrev opens_array : Text → Bool
    opens_array [] = false
    opens_array (c ∷ s) = c == b'['

    abbrev take_line : Option (Value Number) → List (Value Number) × ℕ → List (Value Number) × ℕ
    take_line (some v) (records, skipped) = (v ∷ records, skipped)
    take_line none (records, skipped) = (records, suc skipped)

    -- Blank lines are passed over, lines that do not parse are counted.
    unfoldable pub parse_lines : List Text → List (Value Number) × ℕ
    parse_lines [] = ([], 0)
    parse_lines (line ∷ rest) =
        if is_empty (u.trim line)
        then parse_lines rest
        else take_line (json.from_str (u.trim line)) (parse_lines rest)

    abbrev parse_text : Text → Result (List (Value Number) × ℕ) Text
    parse_text text =
        if opens_array (u.trim_start text)
        then err (
            bytes
              "file looks like a single JSON array; this source reads one JSON object per line (NDJSON)")
        else ok (parse_lines (lines text))

    unfoldable pub parse_records : Text → SourceFormat → Result (List (Value Number) × ℕ) Text
    parse_records body ndjson = elim (u.utf8_error body) [
      | some e ↦ err (bytes "invalid UTF-8: " ++ e)
      | none ↦ parse_text body
    ]
    parse_records body csv = err (bytes "read_json called for a CSV source")

  abbrev pub source_path : ColumnSchema F → Text
  source_path col = elim col.path [ none ↦ col.name | some path ↦ path ]

  unfoldable pub compile_paths : List (ColumnSchema F) → Result (List (List Step)) Text
  compile_paths [] = ok []
  compile_paths (col ∷ cols) = do
    steps ← compile_path (source_path col)
    rest ← compile_paths cols
    ok (steps ∷ rest)

  -- `builders[i].push(resolve(record, steps))` for each column of one record.
  unfoldable pub push_record : Value Number → List (List Step) → List (Builder F) → List (Builder F)
  push_record record_value (steps ∷ compiled) (b ∷ builders) =
      push b (resolve record_value steps) ∷ push_record record_value compiled builders
  push_record record_value compiled builders = builders

  unfoldable pub push_records :
      List (Value Number) → List (List Step) → List (Builder F) → List (Builder F)
  push_records [] compiled builders = builders
  push_records (r ∷ records) compiled builders =
      push_records records compiled (push_record r compiled builders)

  module _ (p : Polars F) (u : Unicode) where
    open p use {Column, Frame}

    unfoldable pub finish : Text → Builder F → Column
    finish name (str v) = p.str_column name v
    finish name (i64 v) = p.i64_column name v
    finish name (f64 v) = p.f64_column name v
    finish name (bools v) = p.bool_column name v

    unfoldable pub finish_all : List (Builder F) → List (ColumnSchema F) → List Column
    finish_all (b ∷ builders) (col ∷ cols) = finish col.name b ∷ finish_all builders cols
    finish_all builders cols = []

    unfoldable pub read_json_source : Text → SourceContainer F → Result (Frame × ℕ) Text
    read_json_source body source = do
      parsed ← parse_records u body source.format
      compiled ← compile_paths source.schema
      let columns =
          finish_all
            (push_records parsed.0 compiled (map (λ c. for_type c.type_name) source.schema))
            source.schema
      df ← map_err (λ e. bytes "frame build failed: " ++ e) (p.new_frame (length parsed.0) columns)
      ok (df, parsed.1)
