-- ===== src/Examples/Libraries.antt =====
-- Small libraries for the examples: a frame is a text, which is the name of its only column and the
-- cell of its only row; expressions are not told apart, nor are floats.
use karet_worker.Common.{false, none, some, [], ◌∷◌, length}
use karet_worker.Common.Float.{Floats}
use karet_worker.Common.Int.{pos}
use karet_worker.Common.Result.{ok}
use karet_worker.Common.Text.{Text, bytes, join}
use karet_worker.Dimension.Types.{Unicode}
use karet_worker.JsonSource.{Json, string}
use karet_worker.Pipeline.{Libraries}
use karet_worker.Polars.{Polars, AnyValue}

abbrev pub polars : Polars Unit
polars = record {
  Expr = Unit;
  col = λ a0. tt;
  lit_str = λ a0. tt;
  lit_f64 = λ a0. tt;
  lit_bool = λ a0. tt;
  lit_i64 = λ a0. tt;
  lit_null = tt;
  thousand = tt;
  plus = λ a0 a1. tt;
  minus = λ a0 a1. tt;
  times = λ a0 a1. tt;
  over = λ a0 a1. tt;
  eq = λ a0 a1. tt;
  neq = λ a0 a1. tt;
  gt = λ a0 a1. tt;
  lt = λ a0 a1. tt;
  gt_eq = λ a0 a1. tt;
  lt_eq = λ a0 a1. tt;
  and = λ a0 a1. tt;
  or = λ a0 a1. tt;
  negate = λ a0. tt;
  contains_literal = λ a0 a1. tt;
  to_uppercase = λ a0. tt;
  to_lowercase = λ a0. tt;
  strip_chars = λ a0 a1. tt;
  slice = λ a0 a1 a2. tt;
  concat_str = λ a0 a1 a2. tt;
  when_then_otherwise = λ a0 a1 a2. tt;
  coalesce = λ a0. tt;
  cast = λ a0 a1. tt;
  year = λ a0. tt;
  month = λ a0. tt;
  day = λ a0. tt;
  to_date = λ a0 a1 a2. tt;
  map_strings = λ a0 a1. tt;
  alias = λ a0 a1. tt;
  Column = Text;
  str_column = λ a0 a1. [];
  i64_column = λ a0 a1. [];
  f64_column = λ a0 a1. [];
  bool_column = λ a0 a1. [];
  null_count = λ c. 0;
  get = λ c i. ok (AnyValue.string c);
  cast_f64 = λ c. ok c;
  f64s = λ c. ok (some tt ∷ none ∷ []);
  Frame = Text;
  new_frame = λ n cs. ok [];
  read_csv = λ t. ok t;
  column_names = λ f. f ∷ [];
  select_names = λ f names. ok f;
  column = λ f name. ok f;
  height = λ f. length f;
  unique_first = λ f keys. ok f;
  partition_by_stable = λ f keys. ok (f ∷ []);
  drop_many = λ f keys. f;
  write_parquet = λ f. ok f;
  LazyFrame = Text;
  lazy = λ f. f;
  select = λ f es. f;
  filter = λ f e. f;
  collect = λ f. ok f;
  concat = λ fs. ok (join [] fs);
}

abbrev pub floats : Floats Unit
floats = record {
  lt = λ a b. false;
  debug = λ o. bytes "0.0";
  as_i64 = λ a. pos 0;
  parse = λ t. none;
}

-- Every line is a string.
abbrev pub json : Json Unit
json = record {
  Number = Unit;
  number_to_string = λ n. bytes "0";
  as_i64 = λ n. none;
  as_f64 = λ n. none;
  from_str = λ t. some (string t);
}

abbrev pub unicode : Unicode
unicode = record {
  to_lowercase = λ t. t;
  utf8_error = λ t. none;
  trim = λ t. t;
  trim_start = λ t. t;
}

abbrev pub libraries : Libraries Unit
libraries = record {
  floats = floats;
  json = json;
  polars = polars;
  unicode = unicode;
  debug = λ ts. join (bytes ", ") ts;
  iso_date = λ days. none;
}
