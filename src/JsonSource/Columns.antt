-- ===== src/JsonSource/Columns.antt =====
-- The cells that src/json_source.rs reads, column by column.
use karet_worker.Common.{ℕ, zero, suc, Bool, none, some, Option, List, [], ◌∷◌, ◌++◌, map}
use karet_worker.Common.Float.{Floats}
use karet_worker.Common.Text.{Text, bytes}
use karet_worker.Common.Int.{ℤ}
use karet_worker.JsonSource.{
  Step, key, index, Value, null, bool, number, string, array, object, Values, value, Fields, field,
  Json, Builder, str, i64, f64, bools, cell_text, as_integer, as_float, as_bool, resolve,
}

module _ {F : Type 0} (floats : Floats F) (json : Json F) where
  open json use {Number}

  -- The cells of one column below those that it has.
  unfoldable pub extend : Builder F → List (Option (Value Number)) → Builder F
  extend (str v) xs = str (v ++ map (cell_text floats json) xs)
  extend (i64 v) xs = i64 (v ++ map (as_integer floats json) xs)
  extend (f64 v) xs = f64 (v ++ map (as_float floats json) xs)
  extend (bools v) xs = bools (v ++ map (as_bool floats json) xs)

  unfoldable pub by_column :
      List (Value Number) → List (List Step) → List (Builder F) → List (Builder F)
  by_column records (steps ∷ compiled) (b ∷ builders) =
      extend b (map (λ r. resolve r steps) records) ∷ by_column records compiled builders
  by_column records compiled builders = builders

-- Where a cell is written: below the steps, beside other fields and items.
module _ {N : Type 0} (beside : Fields N) (behind : Values N) where
  unfoldable pub nulls_before : ℕ → Value N → Values N
  nulls_before zero v = value v behind
  nulls_before (suc i) v = value null (nulls_before i v)

  unfoldable pub place : List Step → Value N → Value N
  place [] v = v
  place (key k ∷ steps) v = object (field k (place steps v) beside)
  place (index i ∷ steps) v = array (nulls_before i (place steps v))

module _ {F : Type 0} (floats : Floats F) (json : Json F) where
  open json use {Number}

  module _ (int_number : ℤ → Number) (float_number : F → Number) where
    abbrev pub write_text : Option Text → Value Number
    write_text none = null
    write_text (some s) = string s

    abbrev pub write_int : Option ℤ → Value Number
    write_int none = null
    write_int (some z) = number (int_number z)

    abbrev pub write_float : Option F → Value Number
    write_float none = null
    write_float (some f) = number (float_number f)

    abbrev pub write_bool : Option Bool → Value Number
    write_bool none = null
    write_bool (some b) = bool b

    -- The records of a column, and the name of its type.
    unfoldable pub records_of :
        Fields Number → Values Number → List Step → Builder F → List (Value Number)
    records_of beside behind steps (str cells) =
        map (λ c. place beside behind steps (write_text c)) cells
    records_of beside behind steps (i64 cells) =
        map (λ c. place beside behind steps (write_int c)) cells
    records_of beside behind steps (f64 cells) =
        map (λ c. place beside behind steps (write_float c)) cells
    records_of beside behind steps (bools cells) =
        map (λ c. place beside behind steps (write_bool c)) cells

    abbrev pub type_of : Builder F → Text
    type_of (str _) = bytes "string"
    type_of (i64 _) = bytes "int64"
    type_of (f64 _) = bytes "float64"
    type_of (bools _) = bytes "bool"
