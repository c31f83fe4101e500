-- ===== src/Job/Outcome.antt =====
-- The results of a run, of src/job.rs.
use karet_worker.Common.{ℕ, List, ◌++◌}
use karet_worker.Common.Text.{Text, bytes}

pub data Progress : Type 0 where
  downloading : ℕ → ℕ → Progress
  ingesting : ℕ → ℕ → ℕ → Progress

pub record JobOutcome : Type 0 where
  pub partitions_written : ℕ
  pub files_processed : ℕ
  pub rows_deduped : ℕ
  pub errors : List Text

pub data JobError : Type 0 where
  config_read config_parse config_invalid : Text → JobError
  no_files : JobError
  dimension : Text → JobError
  cancelled : JobError

-- The `#[error]` texts.
unfoldable pub display : JobError → Text
display (config_read e) = bytes "config read failed: " ++ e
display (config_parse e) = bytes "config parse failed: " ++ e
display (config_invalid e) = bytes "config invalid: " ++ e
display no_files = bytes "no CSV files found to process"
display (dimension e) = bytes "dimension error: " ++ e
display cancelled = bytes "cancelled: lock lost to a newer attempt"
