-- ===== src/Queue/Claim/Retry.antt =====
-- What `handle_claimed` of src/queue.rs does when the config cannot be read, when the run was
-- fenced out, and when the attempts are used up, if no request fails.
use Prim.Native.Nat.{◌^◌}
use karet_worker.Common.{
  ℕ, ◌+◌, ◌<◌, ◌≤◌, ◌≡◌, refl, true, false, some, [], arith, text_eq, nat_eq, ltb, leb, ==_refl,
}
use karet_worker.Common.Int.{pos}
use karet_worker.Common.Result.{Result, ok, err}
use karet_worker.Common.Text.{Text, bytes}
use karet_worker.Job.Outcome.{JobOutcome, JobError, config_read, cancelled}
use karet_worker.Queue.Store.{
  Field, str, int, Redis, get_string, hget, hset, zadd, zscore, xack, is_pending,
}
use karet_worker.Queue.Store.Laws.{hget-hset, zscore-zadd, is_pending-xack}
use karet_worker.Queue.Keys.{live_key, lock_key, delayed_key, fence, backoff_ms}
use karet_worker.Queue.Message.{JobMessage, External, QueueSettings}
use karet_worker.Queue.World.{World, Proc, redis, clock, calm}
use karet_worker.Queue.Commands.{holds, release_lock, release_step, defer, defer_pipe}
use karet_worker.Queue.Locks.{release_step_lem}
use karet_worker.Queue.Finish.Fenced.{finish_job_fenced}
use karet_worker.Queue.Claim.{retry, requeue, settle, gave_up, failed, count_attempt}
use karet_worker.Queue.Claim.Busy.{hget-defer_pipe, hincr_counted, one_more}

module _ (x : External) (settings : QueueSettings) (consumer : Text)
    (run : JobMessage → ℕ → Proc (Result JobOutcome JobError)) (stream_id : ℕ) (msg : JobMessage)
    (w : World) where
  -- After an unreadable config, with attempts left: the message waits in the delayed set for the
  -- backoff, the entry is acknowledged, the status is "queued" again, this attempt no longer holds
  -- the lock, and no row is written.
  pub config_unread_retries :
      (attempts : ℕ) (e : Text)
      → attempts < settings.max_attempts
      → let (result, w') =
          settle x settings consumer run stream_id msg attempts (err (config_read e)) (calm w) in
        (result ≡ ok tt)
        × (zscore delayed_key (x.to_json msg) w'.redis ≡ some (pos (w.now + backoff_ms attempts)))
        × (is_pending stream_id w'.redis ≡ false)
        × (hget w.now (live_key msg.job_id) (bytes "status") w'.redis ≡ some (str (bytes "queued")))
        × (holds (get_string w.now (lock_key msg.pipeline) w'.redis) (fence msg.job_id attempts)
            ≡ false)
        × (w'.db ≡ w.db)
  unfolding settle retry requeue release_lock defer redis clock
  config_unread_retries attempts e room =
      let released : Redis = release_step msg.pipeline (fence msg.job_id attempts) w.now w.redis in
      let again : leb settings.max_attempts attempts ≡ false = ground arith in
      rw again (
        refl,
        unfold defer_pipe xack zscore in zscore-zadd delayed_key (x.to_json msg) _ _,
        unfold defer_pipe in rw is_pending-xack (rw (==_refl stream_id)),
        rw hget-defer_pipe
            (rw hget-hset (rw (==_refl (live_key msg.job_id), ==_refl (bytes "status")))),
        unfold defer_pipe xack zadd hset get_string in
            (release_step_lem msg.pipeline (fence msg.job_id attempts) w.now w.redis []).0,
        refl,
      )

  -- A run that was fenced out leaves the record, the entry and the lock alone.
  cancelled_touches_nothing :
      (attempts : ℕ)
      → settle x settings consumer run stream_id msg attempts (err cancelled) w ≡ (ok tt, w)
  unfolding settle
  cancelled_touches_nothing attempts = refl

  -- A job whose attempts are used up is not failed while its pipeline is busy: where another job holds
  -- the lock of the pipeline, the delivery that exceeds `max_attempts` only counts one more attempt.
  -- No row is written and the entry stays pending.
  pub gave_up_busy :
      {v : Field} {n : ℕ}
      → hget w.now (live_key msg.job_id) (bytes "attempts") w.redis ≡ some (int (pos n))
      → settings.max_attempts ≤ n
      → n + 1 < 2 ^ 32
      → get_string w.now (lock_key msg.pipeline) w.redis ≡ some v
      → holds (some v) (fence msg.job_id (n + 1)) ≡ false
      → let w' = (count_attempt x settings consumer run stream_id msg (calm w)).1 in
        (w'.redis ≡ hset w.now (live_key msg.job_id) (bytes "attempts") (int (pos (n + 1))) w.redis)
        × (w'.db ≡ w.db)
  unfolding count_attempt redis
  gave_up_busy {v} {n} counted used small busy other =
      let fits : ltb (n + 1) (2 ^ 32) ≡ true = ground arith in
      let over : ltb settings.max_attempts (n + 1) ≡ true = ground arith in
      let w₁ : World = record (calm w) {
        redis = hset w.now (live_key msg.job_id) (bytes "attempts") (int (pos (n + 1))) w.redis;
      } in
      rw (hincr_counted _ _ (pos n) (pos 1) (pos (n + 1)) w.now w.redis counted (one_more n)) (
        rw fits (
          rw over (
            finish_job_fenced x settings msg stream_id (n + 1)
              (failed (gave_up x settings consumer run stream_id msg (n + 1))) w₁ {v = v}
              (unfold hset get_string in busy) other)))
