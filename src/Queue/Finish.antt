-- ===== src/Queue/Finish.antt =====
-- `finish_job` of src/queue.rs: the terminal row, the live hash, the lock and the acknowledgement.
pub mod Status
pub mod Fenced
use karet_worker.Common.{
  ℕ, ◌+◌, ◌-◌, ◌%◌, ◌^◌, Bool, true, false, Option, none, some, List, [], ◌∷◌, ◌++◌, ltb, is_empty,
  if◌then◌else◌,
}
use karet_worker.Common.Int.{ℤ, pos, negsuc}
use karet_worker.Common.Result.{Result, ok, err}
use karet_worker.Common.Text.{Text, bytes, join}
use karet_worker.Db.{JobOutcomeRow, mark_finished}
use karet_worker.Queue.Store.{Field, str, int, Redis, get_string, hset, expire_hash, xack}
use karet_worker.Queue.Keys.{live_key, lock_key, fence}
use karet_worker.Queue.Message.{JobMessage, External, QueueSettings}
use karet_worker.Queue.World.{Proc, redis, redis_do, sql_do, clock, ◌>>=◌, ◌>>◌, pure}
use karet_worker.Queue.Commands.{holds, publish_job_event, release_lock}

pub record Terminal : Type 0 where
  pub status : Text
  pub error : Option Text
  pub errors : List Text
  pub partitions_written : Option ℕ
  pub files_processed : Option ℕ
  pub rows_deduped : Option ℕ

-- `n as i32`: the low 32 bits, read as a signed number.
unfoldable pub as_i32 : ℕ → ℤ
as_i32 n = let low = n % 2 ^ 32 in if ltb low (2 ^ 31) then pos low else negsuc (2 ^ 32 - low - 1)

abbrev pub map_option {ℓ κ} : {A : Type ℓ} {B : Type κ} → (A → B) → Option A → Option B
map_option f none = none
map_option f (some a) = some (f a)

-- `.filter(|&n| n > 0)`
abbrev pub positive : Option ℕ → Option ℕ
positive none = none
positive (some n) = if ltb 0 n then some n else none

-- A message behind an earlier one: `{prior} ({message})`.
abbrev pub add_error : Option Text → Text → Option Text
add_error none message = some message
add_error (some prior) message = some (prior ++ (bytes " (" ++ (message ++ bytes ")")))

-- Failures of mappings are joined into `error`.
unfoldable pub joined_error : Terminal → Option Text
joined_error t =
    if is_empty t.errors then t.error else add_error t.error (join (bytes "; ") t.errors)

unfoldable pub outcome_row : Terminal → Option Text → JobOutcomeRow
unfolding as_i32
outcome_row t error = record {
  status = t.status;
  error = error;
  files_processed = map_option as_i32 t.files_processed;
  partitions_written = map_option as_i32 t.partitions_written;
  rows_deduped = map_option as_i32 (positive t.rows_deduped);
}

abbrev pub hset_some : ℕ → Text → Text → Option Field → Redis → Redis
hset_some now key field none r = r
hset_some now key field (some v) r = hset now key field v r

-- The atomic pipeline on the live hash.
unfoldable pub terminal_pipe : External → ℕ → Text → Terminal → Option Text → ℕ → Redis → Redis
terminal_pipe x ttl_s job_id t error now r =
    let live = live_key job_id in
    let r₁ = hset now live (bytes "status") (str t.status) r in
    let r₂ = hset now live (bytes "finished_at") (str (x.iso now)) r₁ in
    let r₃ = expire_hash now live ttl_s r₂ in
    let r₄ = hset_some now live (bytes "error") (map_option str error) r₃ in
    hset_some now live (bytes "partitions_written")
      (map_option (λ n. int (pos n)) t.partitions_written) r₄

abbrev pub add_miss : Text → Option Text → Result (Unit {0}) Text → Option Text
add_miss job_id error (ok _) = error
add_miss job_id error (err e) =
    add_error error (bytes "terminal row write failed for " ++ (job_id ++ (bytes ": " ++ e)))

abbrev pub Outcome : Type 0
Outcome = Result (Unit {0}) Text

-- A step whose failure ends the procedure, with a message before the error.
abbrev pub attempt : Text → Proc Outcome → Proc Outcome → Proc Outcome
attempt message m k = do r ← m; elim r [ err e ↦ pure (err (message ++ e)) | ok _ ↦ k ]

module _ (x : External) (settings : QueueSettings) (msg : JobMessage) (stream_id attempts : ℕ) where
  -- The lock is given back, and then the entry is acknowledged, whether or not that succeeds.
  unfoldable pub release_and_ack : Proc Outcome
  release_and_ack =
      attempt (bytes "lock release failed: ")
        (release_lock msg.pipeline (fence msg.job_id attempts))
        do _ ← redis_do (λ _. xack stream_id); pure (ok tt)

  unfoldable pub finish_live : Terminal → Option Text → Proc Outcome
  finish_live t error =
      attempt (bytes "live terminal update failed: ")
        (redis_do (terminal_pipe x settings.live_terminal_ttl_s msg.job_id t error))
        do publish_job_event msg.pipeline msg.job_id; release_and_ack

  -- What follows the fence check: the row first, then the live hash, the lock and the entry.
  unfoldable pub finish_owned : Terminal → Proc Outcome
  finish_owned t = do
    written ← sql_do (λ now. mark_finished now msg.job_id (outcome_row t (joined_error t)))
    finish_live t (add_miss msg.job_id (joined_error t) written)

  -- Does another attempt, or another job, hold the lock of the pipeline?
  abbrev pub fenced_out : Option Field → Bool
  fenced_out none = false
  fenced_out (some v) = if holds (some v) (fence msg.job_id attempts) then false else true

  unfoldable pub finish_job : Terminal → Proc Outcome
  finish_job t = do
    holder ← redis (λ now r. (get_string now (lock_key msg.pipeline) r, r))
    elim holder [
      | err e ↦ pure (err (bytes "fence check failed: " ++ e))
      | ok v ↦ if fenced_out v then pure (ok tt) else finish_owned t
    ]
