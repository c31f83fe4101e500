-- ===== src/StartUp.antt =====
-- src/lib.rs: the environment variables that the worker wants.
use karet_worker.Common.{Bool, true, Option, none, some, List, [], ◌∷◌, ◌++◌, is_empty, retain}
use karet_worker.Common.Result.{Result, ok, err}
use karet_worker.Common.Text.{Text, bytes, join}

abbrev unset : Option Text → Bool
unset none = true
unset (some v) = is_empty v

unfoldable pub missing_text : List Text → Text
missing_text missing =
    bytes "missing required environment variable(s): "
    ++ (join (bytes ", ") missing
        ++ bytes ". set them before starting karet-worker (see docker-compose.yaml)")

-- `env` is the environment; a value that is not Unicode counts as none.
unfoldable pub require_env_vars : (Text → Option Text) → List Text → Result (Unit {0}) Text
require_env_vars env names = elim (retain (λ name. unset (env name)) names) [
  | [] ↦ ok tt
  | name ∷ missing ↦ err (missing_text (name ∷ missing))
]

-- `parse` is the `FromStr` of the type.
unfoldable pub env_parse : {A : Type 0} → (Text → Option Text) → (Text → Option A) → Text → A → A
env_parse env parse name default = elim (env name) [
  | none ↦ default
  | some raw ↦ elim (parse raw) [ some v ↦ v | none ↦ default ]
]
