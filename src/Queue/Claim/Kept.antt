-- ===== src/Queue/Claim/Kept.antt =====
-- The procedures of `handle_claimed` in src/queue.rs one by one: what becomes of the delivery.
pub mod Parts
use karet_worker.Common.{
  ℕ, ◌+◌, ◌<◌, ◌≡◌, inl, inr, Bool, true, false, Option, none, some, ◌++◌, ltb, leb, if◌then◌else◌,
}
use karet_worker.Common.Result.{Result, ok, err, map_err}
use karet_worker.Common.Text.{Text, bytes}
use karet_worker.Db.{mark_running}
use karet_worker.Http.Prefix.{validate_pipeline_prefix}
use karet_worker.Job.Outcome.{JobOutcome, JobError, config_read, no_files, cancelled, display}
use karet_worker.Queue.Store.{Field, Redis, xack}
use karet_worker.Queue.Keys.{fence, backoff_ms}
use karet_worker.Queue.Message.{JobMessage, External, QueueSettings}
use karet_worker.Queue.World.{Proc, redis_do, connect, ◌>>=◌, pure}
use karet_worker.Queue.World.Spec.{
  Spec, Spec-pure, Spec-if, Spec-bind, Spec-then, Spec-redis, Spec-redis_keeps, Spec-sql,
  Spec-clock,
}
use karet_worker.Queue.Commands.{try_lock, release_lock, defer}
use karet_worker.Queue.Finish.{Outcome, finish_job}
use karet_worker.Queue.Claim.{
  failed, both, attempts_of, is_terminal, flatten_ok, ran, nothing_to_do, set_running, requeue,
  retry, settle, execute, postpone, acquire, gave_up, count_attempt, guard_redelivery,
  handle_message, handle_claimed,
}
use karet_worker.Queue.Claim.Kept.Parts.{
  Pending, Done, Kept, defer-Spec, finish-Spec, Pending-hset, Pending-hincr, Pending-set_running,
  Pending-lock_step, Pending-release_step, publish-Spec, Done-xack, up-Spec, down-Spec,
  failed-status, nothing_to_do-status, ran-status,
}

module _ (x : External) (settings : QueueSettings) (consumer : Text)
    (run : JobMessage → ℕ → Proc (Result JobOutcome JobError)) (stream_id : ℕ)
    (msg : JobMessage) where
  module _ (ttl : 0 < settings.live_terminal_ttl_s) where
    requeue-Spec :
        (attempts : ℕ)
        → Spec
            (Pending x stream_id msg)
            (requeue x settings consumer run stream_id msg attempts)
            (λ _. Kept x stream_id msg)
    unfolding requeue
    requeue-Spec attempts =
        Spec-bind _ _ (Spec-redis_keeps _ (Pending-hset x stream_id msg _ _ _)) λ a.
          Spec-bind _ _ Spec-clock λ now.
            Spec-bind _ _ (defer-Spec x stream_id msg (now + backoff_ms attempts))
              λ d. Spec-pure (map_err (λ e. bytes "defer failed: " ++ e) d) (λ now r p. p)

    retry-Spec :
        (attempts : ℕ) (e : Text)
        → Spec
            (Pending x stream_id msg)
            (retry x settings consumer run stream_id msg attempts e)
            (λ _. Kept x stream_id msg)
    unfolding retry release_lock
    retry-Spec attempts e =
        Spec-bind _ _
          (Spec-redis_keeps _ (Pending-release_step x stream_id msg (fence msg.job_id attempts)))
          λ released.
            Spec-bind _ _
              (Spec-if (leb settings.max_attempts attempts)
                (finish_job x settings msg stream_id attempts (failed e))
                (requeue x settings consumer run stream_id msg attempts)
                (λ _.
                  finish-Spec x stream_id msg settings attempts (failed e) ttl (failed-status e))
                (λ _. requeue-Spec attempts))
              λ followed.
                Spec-pure
                  (both (map_err (λ e. bytes "lock release failed: " ++ e) released) followed)
                  (λ now r p. p)

    settle-Spec :
        (attempts : ℕ) (outcome : Result JobOutcome JobError)
        → Spec
            (Pending x stream_id msg)
            (settle x settings consumer run stream_id msg attempts outcome)
            (λ _. Kept x stream_id msg)
    unfolding settle
    settle-Spec attempts (ok o) =
        finish-Spec x stream_id msg settings attempts (ran o) ttl (ran-status o)
    settle-Spec attempts (err no_files) =
        finish-Spec x stream_id msg settings attempts nothing_to_do ttl nothing_to_do-status
    settle-Spec attempts (err (config_read e)) = retry-Spec attempts e
    settle-Spec attempts (err cancelled) = Spec-pure (ok tt) (λ now r p. inl p)
    settle-Spec attempts (err e) =
        finish-Spec x stream_id msg settings attempts (failed (display e)) ttl
          (failed-status (display e))

    postpone-Spec :
        Spec
          (Pending x stream_id msg)
          (postpone x settings consumer run stream_id msg)
          (λ _. Kept x stream_id msg)
    unfolding postpone
    postpone-Spec = Spec-bind _ _ (Spec-redis_keeps _ (Pending-hincr x stream_id msg _ _ _)) λ a.
        Spec-bind _ _ Spec-clock λ now.
          Spec-bind _ _ (defer-Spec x stream_id msg (now + 30000)) λ d. Spec-pure tt (λ now r p. p)

    module _
        (run_keeps : (attempts : ℕ)
          → Spec (Pending x stream_id msg) (run msg attempts) (λ _. Pending x stream_id msg)) where
      execute-Spec :
          (attempts : ℕ)
          → Spec
              (Pending x stream_id msg)
              (execute x settings consumer run stream_id msg attempts)
              (λ _. Kept x stream_id msg)
      unfolding execute
      execute-Spec attempts = Spec-then {0, 0} _ _ (up-Spec x stream_id msg) (
          Spec-bind _ _
            (Spec-redis_keeps (λ now r. (tt {0}, set_running x consumer msg.job_id now r))
              (Pending-set_running x stream_id msg consumer))
            λ a. Spec-then {0, 0} _ _ (publish-Spec x stream_id msg) (
              Spec-bind _ _ (Spec-sql (λ now d. (tt {0}, mark_running now msg.job_id consumer d)))
                λ b. Spec-bind _ _ (run_keeps attempts) λ outcome.
                  Spec-bind _ _ (settle-Spec attempts outcome) λ c. down-Spec x stream_id msg))

      acquire-Spec :
          (attempts : ℕ)
          → Spec
              (Pending x stream_id msg)
              (acquire x settings consumer run stream_id msg attempts)
              (λ _. Kept x stream_id msg)
      unfolding acquire try_lock
      acquire-Spec attempts =
          Spec-bind _ _
            (Spec-redis_keeps _
              (Pending-lock_step x stream_id msg (fence msg.job_id attempts) settings.lock_ttl_ms))
            (cases attempts)
        where
          cases :
              (attempts : ℕ) (locked : Result Bool Text)
              → Spec
                  (Pending x stream_id msg)
                  (elim locked [
                    | ok true ↦ execute x settings consumer run stream_id msg attempts
                    | ok false ↦ postpone x settings consumer run stream_id msg
                    | err _ ↦ pure tt
                  ])
                  (λ _. Kept x stream_id msg)
          cases attempts (ok true) = execute-Spec attempts
          cases attempts (ok false) = postpone-Spec
          cases attempts (err e) = Spec-pure tt (λ now r p. inl p)

      attempt-Spec :
          (attempts : ℕ)
          → Spec
              (Pending x stream_id msg)
              (if ltb settings.max_attempts attempts
                then (finish_job x settings msg stream_id attempts
                      (failed (gave_up x settings consumer run stream_id msg attempts))
                    >>= (λ _. pure tt))
                else acquire x settings consumer run stream_id msg attempts)
              (λ _. Kept x stream_id msg)
      attempt-Spec attempts =
          Spec-if (ltb settings.max_attempts attempts)
            (finish_job x settings msg stream_id attempts
                (failed (gave_up x settings consumer run stream_id msg attempts))
              >>= (λ _. pure tt))
            (acquire x settings consumer run stream_id msg attempts)
            (λ _.
              Spec-bind _ _ (finish-Spec x stream_id msg settings attempts _ ttl (failed-status _))
                (λ a. Spec-pure tt (λ now r p. p)))
            (λ _. acquire-Spec attempts)

      count_attempt-Spec :
          Spec
            (Pending x stream_id msg)
            (count_attempt x settings consumer run stream_id msg)
            (λ _. Kept x stream_id msg)
      unfolding count_attempt
      count_attempt-Spec =
          Spec-bind _ _ (Spec-redis_keeps _ (Pending-hincr x stream_id msg _ _ _))
            λ reply. attempt-Spec (attempts_of reply)

      redelivery-Spec :
          (reply : Result (Option Field) Text)
          → Spec
              (λ now r.
                Pending x stream_id msg now r
                × (is_terminal (flatten_ok reply) ≡ true → Done x stream_id msg now r))
              (if is_terminal (flatten_ok reply)
                then (redis_do (λ _. xack stream_id) >>= (λ _. pure tt))
                else count_attempt x settings consumer run stream_id msg)
              (λ _. Kept x stream_id msg)
      redelivery-Spec reply =
          Spec-if (is_terminal (flatten_ok reply))
            (redis_do (λ _. xack stream_id) >>= (λ _. pure tt))
            (count_attempt x settings consumer run stream_id msg)
            (λ ended.
              Spec-bind _ _
                (Spec-redis _ (λ now r p. inr (inl (Done-xack x stream_id msg now r (p.1 ended))))
                  (λ e now r p. inl p.0)
                  (λ e now r p. inr (inl (Done-xack x stream_id msg now r (p.1 ended)))))
                (λ a. Spec-pure tt (λ now r p. p)))
            (λ _. record { at = λ w p. count_attempt-Spec.at w p.0 })

      guard_redelivery-Spec :
          Spec
            (Pending x stream_id msg)
            (guard_redelivery x settings consumer run stream_id msg)
            (λ _. Kept x stream_id msg)
      unfolding guard_redelivery
      guard_redelivery-Spec =
          Spec-bind _ _
            (Spec-redis _ (λ now r p. (p, λ t. t)) (λ e now r p. (p, λ t. cc))
              (λ e now r p. (p, λ t. cc)))
            redelivery-Spec

      handle_message-Spec :
          Spec
            (Pending x stream_id msg)
            (handle_message x settings consumer run stream_id msg)
            (λ _. Kept x stream_id msg)
      unfolding handle_message
      handle_message-Spec = cases (validate_pipeline_prefix msg.prefix)
        where
          cases :
              (valid : Result (Unit {0}) Text)
              → Spec
                  (Pending x stream_id msg)
                  (elim valid [
                    | err reason ↦
                        finish_job x settings msg stream_id 1
                          (failed (bytes "invalid pipeline_prefix: " ++ reason))
                        >>= (λ _. pure tt)
                    | ok _ ↦ guard_redelivery x settings consumer run stream_id msg
                  ])
                  (λ _. Kept x stream_id msg)
          cases (err reason) =
              Spec-bind _ _ (finish-Spec x stream_id msg settings 1 _ ttl (failed-status _))
                (λ a. Spec-pure tt (λ now r p. p))
          cases (ok u) = guard_redelivery-Spec

      -- A delivered message is never lost. Its delivery stays pending until either a terminal status
      -- stands in the live hash or the message waits in the delayed set, whatever requests to Redis
      -- or to the database fail, before or after they are carried out. Conditions: the run of the
      -- job leaves the delivery pending, the live hash of a finished job is kept for a positive
      -- time, and the payload is that message.
      pub handle_claimed-Kept :
          (payload : Text)
          → x.from_json payload ≡ some msg
          → Spec
              (Pending x stream_id msg)
              (handle_claimed x settings consumer run stream_id payload)
              (λ _. Kept x stream_id msg)
      unfolding handle_claimed connect
      handle_claimed-Kept payload parsed = Spec-bind _ _ (Spec-redis_keeps _ (λ now r p. p)) cases
        where
          cases :
              (connected : Outcome)
              → Spec {0}
                  (Pending x stream_id msg)
                  (elim connected [
                    | err _ ↦ pure tt
                    | ok _ ↦ elim (x.from_json payload) [
                      | none ↦ redis_do (λ _. xack stream_id) >>= (λ _. pure tt)
                      | some m ↦ handle_message x settings consumer run stream_id m
                    ]
                  ])
                  (λ _. Kept x stream_id msg)
          cases (err e) = Spec-pure tt (λ now r p. inl p)
          cases (ok u) = rw parsed handle_message-Spec
