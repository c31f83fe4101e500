-- ===== src/Http/Validate.antt =====
-- `post_config_validate` of src/http.rs.
use karet_worker.Common.{none, List, [], ◌∷◌, map}
use karet_worker.Common.Result.{Result, ok, err}
use karet_worker.Common.Text.{Text, bytes}
use karet_worker.Config.Types.{
  PipelineConfig, ConfigError, duplicate_id, dangling_reference, schema_error, missing_field,
  display_config,
}
use karet_worker.Config.Validate.{validate}
use karet_worker.Http.Routing.{RoutingCache}

-- The JSON object of an error, and that of the reply: whether the config is accepted, and the errors.
pub record ErrorJson : Type 0 where
  pub kind : Text
  pub message : Text
  pub path : Text

pub data Verdict : Type 0 where
  accepted : Verdict
  rejected : List ErrorJson → Verdict

abbrev kind_and_path : ConfigError → Text × Text
kind_and_path (duplicate_id path _ _) = (bytes "duplicate_id", path)
kind_and_path (dangling_reference path _ _) = (bytes "dangling_reference", path)
kind_and_path (missing_field path _) = (bytes "missing_field", path)
kind_and_path (schema_error path _) = (bytes "schema", path)

unfoldable pub error_to_json : ConfigError → ErrorJson
error_to_json e = record {
  kind = (kind_and_path e).0;
  message = display_config e;
  path = (kind_and_path e).1;
}

module _ {F : Type 0} (parse : Text → Result (PipelineConfig F) Text) where
  abbrev judge : Result (PipelineConfig F) Text → Verdict
  judge (ok cfg) = elim (validate cfg) [
    | ok _ ↦ accepted
    | err errs ↦ rejected (map error_to_json errs)
  ]
  judge (err e) = rejected ((record { kind = bytes "schema"; message = e; path = bytes "/" }) ∷ [])

  -- The routing cache is dropped, whatever the body is.
  unfoldable pub post_config_validate : Text → RoutingCache → Verdict × RoutingCache
  post_config_validate body cache = (judge (parse body), record cache { built_at = none })
