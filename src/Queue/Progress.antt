-- ===== src/Queue/Progress.antt =====
-- The progress of a run in its live hash (RedisProgress of src/queue.rs).
use karet_worker.Common.{ℕ, List, [], ◌∷◌}
use karet_worker.Common.Int.{pos}
use karet_worker.Common.Result.{ok, err}
use karet_worker.Common.Text.{Text, bytes}
use karet_worker.Job.Outcome.{Progress, downloading, ingesting}
use karet_worker.Queue.Store.{str, int, Redis, hset}
use karet_worker.Queue.Keys.{live_key}
use karet_worker.Queue.Commands.{publish_job_event}
use karet_worker.Queue.World.{Proc, redis_do, ◌>>=◌, ◌>>◌, pure}

unfoldable pub progress_pipe : Text → Progress → ℕ → Redis → Redis
progress_pipe job_id (downloading done total) now r =
    let r₁ = hset now (live_key job_id) (bytes "stage") (str (bytes "downloading")) r in
    let r₂ = hset now (live_key job_id) (bytes "files_done") (int (pos done)) r₁ in
    hset now (live_key job_id) (bytes "files_total") (int (pos total)) r₂
progress_pipe job_id (ingesting mappings_done mappings_total partitions_written) now r =
    let r₁ = hset now (live_key job_id) (bytes "stage") (str (bytes "ingesting")) r in
    let r₂ = hset now (live_key job_id) (bytes "mappings_done") (int (pos mappings_done)) r₁ in
    let r₃ = hset now (live_key job_id) (bytes "mappings_total") (int (pos mappings_total)) r₂ in
    hset now (live_key job_id) (bytes "partitions_written") (int (pos partitions_written)) r₃

-- The body of the task's loop.
unfoldable pub write_progress : Text → Text → Progress → Proc (Unit {0})
write_progress pipeline job_id p = do
  result ← redis_do (progress_pipe job_id p)
  elim result [ ok _ ↦ publish_job_event pipeline job_id | err _ ↦ pure tt ]

-- What the channel holds, until it is closed.
unfoldable pub drain : Text → Text → List Progress → Proc (Unit {0})
drain pipeline job_id [] = pure tt
drain pipeline job_id (p ∷ ps) = do write_progress pipeline job_id p; drain pipeline job_id ps
