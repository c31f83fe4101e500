-- ===== src/Queue/Claim.antt =====
-- `handle_claimed` of src/queue.rs: what a worker does with one delivered entry. The run of the job,
-- with its heartbeat and all that other workers do meanwhile, is the argument `run`.
pub mod Kept
pub mod NoLoss
pub mod Busy
pub mod Retry
use karet_worker.Common.{
  ℕ, suc, ◌+◌, ◌-◌, ◌^◌, Bool, true, false, ◌||◌, Option, none, some, List, [], ◌∷◌, ◌++◌, ltb, leb,
  ◌==◌, text_eq, is_empty, if◌then◌else◌, length,
}
use karet_worker.Common.Int.{ℤ, pos, negsuc, ◌+ℤ◌}
use karet_worker.Common.Result.{Result, ok, err, map_err}
use karet_worker.Common.Text.{Text, bytes, to_string}
use karet_worker.Db.{mark_running}
use karet_worker.Http.Prefix.{validate_pipeline_prefix}
use karet_worker.Job.Outcome.{
  JobOutcome, JobError, config_read, config_parse, config_invalid, no_files, dimension, cancelled,
  display,
}
use karet_worker.Queue.Store.{Field, str, int, Redis, hget, hset, xack}
use karet_worker.Queue.Keys.{live_key, fence, backoff_ms}
use karet_worker.Queue.Message.{JobMessage, External, QueueSettings}
use karet_worker.Queue.World.{
  World, Proc, redis, redis_do, sql_do, connect, clock, ◌>>=◌, ◌>>◌, pure,
}
use karet_worker.Queue.Commands.{publish_job_event, try_lock, release_lock, defer}
use karet_worker.Queue.Finish.{Terminal, Outcome, finish_job}

-- A failure with no counts.
unfoldable pub failed : Text → Terminal
failed error = record {
  status = bytes "failed";
  error = some error;
  errors = [];
  partitions_written = none;
  files_processed = none;
  rows_deduped = none;
}

-- HINCRBY: an absent field counts as 0, a text is an error.
abbrev incremented : Option Field → ℤ → Option ℤ
incremented none n = some n
incremented (some (int i)) n = some (i +ℤ n)
incremented (some (str _)) n = none

unfoldable pub hincr : Text → Text → ℤ → ℕ → Redis → Result ℤ Text × Redis
hincr key field n now r = elim (incremented (hget now key field r) n) [
  | none ↦ (err (bytes "hash value is not an integer"), r)
  | some i ↦ (ok i, hset now key field (int i) r)
]

-- The reply as a `u32`; any failure counts as the first attempt.
abbrev pub attempts_of : Result (Result ℤ Text) Text → ℕ
attempts_of (ok (ok (pos n))) = if ltb n (2 ^ 32) then n else 1
attempts_of _ = 1

abbrev pub is_terminal : Option Field → Bool
is_terminal none = false
is_terminal (some (int _)) = false
is_terminal (some (str s)) =
    s == bytes "completed" || (s == bytes "failed" || s == bytes "abandoned")

-- `.await.ok().flatten()`
abbrev pub flatten_ok : Result (Option Field) Text → Option Field
flatten_ok (ok v) = v
flatten_ok (err e) = none

abbrev first_of_list : List Text → Text
first_of_list [] = []
first_of_list (t ∷ ts) = t

-- The result of a run that came to its end: "completed" is for runs without errors.
unfoldable pub ran : JobOutcome → Terminal
ran o = record {
  status = if is_empty o.errors then bytes "completed" else bytes "failed";
  error =
      if is_empty o.errors
      then none
      else some (
          to_string o.partitions_written
          ++ (bytes " partitions written, "
              ++ (to_string (length o.errors) ++ (bytes " error(s): " ++ first_of_list o.errors))));
  errors = o.errors;
  partitions_written = some o.partitions_written;
  files_processed = some o.files_processed;
  rows_deduped = some o.rows_deduped;
}

unfoldable pub nothing_to_do : Terminal
nothing_to_do = record {
  status = bytes "completed";
  error = some (bytes "no CSV files found to process");
  errors = [];
  partitions_written = some 0;
  files_processed = some 0;
  rows_deduped = none;
}

-- `Result::and`, of two results that are there already.
abbrev pub both : Outcome → Outcome → Outcome
both (ok _) b = b
both (err e) b = err e

unfoldable pub set_running : External → Text → Text → ℕ → Redis → Redis
set_running x consumer job_id now r =
    let live = live_key job_id in
    let r₁ = hset now live (bytes "status") (str (bytes "running")) r in
    let r₂ = hset now live (bytes "worker") (str consumer) r₁ in
    hset now live (bytes "started_at") (str (x.iso now)) r₂

unfoldable pub in_flight_up : Proc (Unit {0})
in_flight_up w = (tt, record w { in_flight = w.in_flight + 1 })

unfoldable pub in_flight_down : Proc (Unit {0})
in_flight_down w = (tt, record w { in_flight = w.in_flight - 1 })

module _ (x : External) (settings : QueueSettings) (consumer : Text)
    (run : JobMessage → ℕ → Proc (Result JobOutcome JobError)) where
  module _ (stream_id : ℕ) (msg : JobMessage) where
    -- The job waits for its next attempt.
    unfoldable pub requeue : ℕ → Proc Outcome
    requeue attempts = do
      _ ← redis_do (λ now. hset now (live_key msg.job_id) (bytes "status") (str (bytes "queued")))
      now ← clock
      deferred ← defer x msg stream_id (now + backoff_ms attempts)
      pure (map_err (λ e. bytes "defer failed: " ++ e) deferred)

    -- The config could not be read: retry later, or give up after the last attempt. The lock is
    -- released first, and what follows is done even if that fails.
    unfoldable pub retry : ℕ → Text → Proc Outcome
    retry attempts e = do
      released ← release_lock msg.pipeline (fence msg.job_id attempts)
      followed ←
          if leb settings.max_attempts attempts
          then finish_job x settings msg stream_id attempts (failed e)
          else requeue attempts
      pure (both (map_err (λ e. bytes "lock release failed: " ++ e) released) followed)

    -- The `match` on the outcome of the run.
    unfoldable pub settle : ℕ → Result JobOutcome JobError → Proc Outcome
    settle attempts (ok o) = finish_job x settings msg stream_id attempts (ran o)
    settle attempts (err no_files) = finish_job x settings msg stream_id attempts nothing_to_do
    settle attempts (err (config_read e)) = retry attempts e
    settle attempts (err cancelled) = pure (ok tt)
    settle attempts (err e) = finish_job x settings msg stream_id attempts (failed (display e))

    -- With the lock in hand.
    unfoldable pub execute : ℕ → Proc (Unit {0})
    execute attempts = do
      in_flight_up
      _ ← redis_do (set_running x consumer msg.job_id)
      publish_job_event msg.pipeline msg.job_id
      _ ← sql_do (λ now. mark_running now msg.job_id consumer)
      outcome ← run msg attempts
      _ ← settle attempts outcome
      in_flight_down

    -- The pipeline is busy: the attempt is taken back, and the message comes again in 30 s.
    unfoldable pub postpone : Proc (Unit {0})
    postpone = do
      _ ← redis (hincr (live_key msg.job_id) (bytes "attempts") (negsuc 0))
      now ← clock
      _ ← defer x msg stream_id (now + 30000)
      pure tt

    unfoldable pub acquire : ℕ → Proc (Unit {0})
    acquire attempts = do
      locked ← try_lock msg.pipeline (fence msg.job_id attempts) settings.lock_ttl_ms
      elim locked [ ok true ↦ execute attempts | ok false ↦ postpone | err _ ↦ pure tt ]

    abbrev pub gave_up : ℕ → Text
    gave_up attempts =
        bytes "gave up after "
        ++ (to_string (attempts - 1)
            ++ bytes " attempts (worker crashes or repeated transient failures)")

    -- The attempt is counted before the lock is tried.
    unfoldable pub count_attempt : Proc (Unit {0})
    count_attempt = do
      reply ← redis (hincr (live_key msg.job_id) (bytes "attempts") (pos 1))
      let attempts = attempts_of reply
      if ltb settings.max_attempts attempts
          then (do
            _ ← finish_job x settings msg stream_id attempts (failed (gave_up attempts))
            pure tt)
          else acquire attempts

    -- A job that has reached a terminal state is not run again.
    unfoldable pub guard_redelivery : Proc (Unit {0})
    guard_redelivery = do
      status ← redis (λ now r. (hget now (live_key msg.job_id) (bytes "status") r, r))
      if is_terminal (flatten_ok status)
          then (do _ ← redis_do (λ _. xack stream_id); pure tt)
          else count_attempt

    unfoldable pub handle_message : Proc (Unit {0})
    handle_message = elim (validate_pipeline_prefix msg.prefix) [
      | err reason ↦ do
        _ ←
            finish_job x settings msg stream_id 1
              (failed (bytes "invalid pipeline_prefix: " ++ reason))
        pure tt
      | ok _ ↦ guard_redelivery
    ]

  unfoldable pub handle_claimed : ℕ → Text → Proc (Unit {0})
  handle_claimed stream_id payload = do
    connected ← connect
    elim connected [
      | err _ ↦ pure tt
      | ok _ ↦ elim (x.from_json payload) [
        | none ↦ do _ ← redis_do (λ _. xack stream_id); pure tt
        | some msg ↦ handle_message stream_id msg
      ]
    ]
