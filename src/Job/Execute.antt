-- ===== src/Job/Execute.antt =====
-- `execute_job` of src/job.rs: one run of a pipeline.
pub mod Failed
pub mod Isolated
use karet_worker.Common.{ℕ, Bool, true, false, Option, none, some, List, [], ◌∷◌, map, length}
use karet_worker.Common.Int.{ℤ}
use karet_worker.Common.Result.{Result, ok, err}
use karet_worker.Common.Text.{Text}
use karet_worker.Job.Outcome.{downloading, JobOutcome, JobError}
use karet_worker.Job.World.{update}
use karet_worker.Job.Task.{Task, ◌>>=◌, ◌>>◌, done, lift}
use karet_worker.Job.Sources.{
  Publishes, load_config, read_publishes, list_candidates, download_all, build_registry,
}
use karet_worker.Job.Mappings.{Totals, run_mappings}
use karet_worker.Job.Publish.{Settings, finish_run}
use karet_worker.Pipeline.{Libraries}

abbrev pub nothing_done : Publishes → Totals
nothing_done publishes = record { publishes = publishes; partitions = 0; deduped = 0; errors = [] }

unfoldable pub execute_job :
    {F : Type 0} → Libraries F → Settings F → Text → Text → Option ℤ → Bool → Task JobOutcome
execute_job x s prefix pipeline config_version_id clean_run = do
  cfg ← load_config s.version_text s.parse pipeline config_version_id
  publishes ← read_publishes s.codec prefix clean_run cfg.analytic_tables []
  lift (update (downloading 0 0))
  candidates ← list_candidates cfg.source_containers []
  all_files ← download_all candidates
  matchers ← build_registry x.unicode cfg.dimensions
  totals ←
      run_mappings x prefix cfg matchers (length cfg.mappings) 0 all_files cfg.mappings
        (nothing_done publishes)
  lift (finish_run s (length all_files) (length cfg.mappings) totals)
