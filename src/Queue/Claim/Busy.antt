-- ===== src/Queue/Claim/Busy.antt =====
-- What `handle_claimed` of src/queue.rs does on the paths that run no job, when no request fails.
use karet_worker.Common.{
  ℕ, ◌+◌, ◌^◌, ◌<◌, ◌≡◌, refl, ◌≢◌, ◌⊎◌, inl, inr, true, false, some, arith, text_eq, nat_eq,
  ==_refl, ◌∙◌,
}
use karet_worker.Common.Int.{ℤ, pos, negsuc, ◌+ℤ◌}
use karet_worker.Common.Result.{Result, ok}
use karet_worker.Common.Text.{Text, bytes}
use karet_worker.Http.Prefix.{validate_pipeline_prefix}
use karet_worker.Job.Outcome.{JobOutcome, JobError}
use karet_worker.Queue.Store.{
  str, Field, int, Redis, get_string, hget, hset, zadd, zscore, xack, is_pending,
}
use karet_worker.Queue.Store.Laws.{hget-hset, zscore-zadd, is_pending-xack}
use karet_worker.Queue.Keys.{live_key, lock_key, delayed_key, fence}
use karet_worker.Queue.Message.{JobMessage, External, QueueSettings}
use karet_worker.Queue.World.{World, Proc, redis, connect, clock, calm}
use karet_worker.Queue.Commands.{try_lock, lock_step, defer, defer_pipe}
use karet_worker.Queue.Claim.{
  hincr, is_terminal, postpone, acquire, count_attempt, guard_redelivery, handle_message,
  handle_claimed,
}

-- A counter that is there is set to the sum.
pub hincr_counted :
    (key field : Text) (i n m : ℤ) (now : ℕ) (r : Redis)
    → hget now key field r ≡ some (int i)
    → i +ℤ n ≡ m
    → hincr key field n now r ≡ (ok m, hset now key field (int m) r)
unfolding hincr
hincr_counted key field i n m now r h e = rw (h, hincr) (rw e)

lock_step_busy :
    (pipeline f : Text) (ttl now : ℕ) (r : Redis) {v : Field}
    → get_string now (lock_key pipeline) r ≡ some v
    → lock_step pipeline f ttl now r ≡ (false, r)
unfolding lock_step
lock_step_busy pipeline f ttl now r busy = rw (busy, lock_step)

pub hget-defer_pipe :
    (x : External) (msg : JobMessage) (id fire_at now : ℕ) (key field : Text) (r : Redis)
    → hget now key field (defer_pipe x msg id fire_at r) ≡ hget now key field r
unfolding defer_pipe xack zadd hget
hget-defer_pipe x msg id fire_at now key field r = refl

pub one_more : (n : ℕ) → pos n +ℤ pos 1 ≡ pos (n + 1)
one_more n = ground arith

one_less : (n : ℕ) → pos (n + 1) +ℤ negsuc 0 ≡ pos n
one_less n = ground arith

module _ (x : External) (settings : QueueSettings) (consumer : Text)
    (run : JobMessage → ℕ → Proc (Result JobOutcome JobError)) (stream_id : ℕ) (msg : JobMessage)
    (w : World) where
  -- Redis with the attempts set.
  abbrev pub with_attempts : ℕ → Redis
  with_attempts n = hset w.now (live_key msg.job_id) (bytes "attempts") (int (pos n)) w.redis

  count_attempt_next :
      (n : ℕ)
      → hget w.now (live_key msg.job_id) (bytes "attempts") w.redis ≡ some (int (pos n))
      → n < settings.max_attempts
      → settings.max_attempts < 2 ^ 32
      → count_attempt x settings consumer run stream_id msg (calm w)
        ≡ acquire x settings consumer run stream_id msg
            (n + 1)
            (record (calm w) { redis = with_attempts (n + 1) })
  unfolding count_attempt redis
  count_attempt_next n counted room small =
      rw (hincr_counted _ _ (pos n) (pos 1) (pos (n + 1)) w.now w.redis counted (one_more n))
        (ground arith)

  acquire_busy :
      (a : ℕ) {v : Field}
      → get_string w.now (lock_key msg.pipeline) w.redis ≡ some v
      → acquire x settings consumer run stream_id msg a (calm w)
        ≡ postpone x settings consumer run stream_id msg (calm w)
  unfolding acquire try_lock redis
  acquire_busy a busy = ground (
    arith,
    lock_step_busy msg.pipeline (fence msg.job_id a) settings.lock_ttl_ms w.now w.redis busy,
  )

  postpone_counted :
      (n : ℕ)
      → hget w.now (live_key msg.job_id) (bytes "attempts") w.redis ≡ some (int (pos (n + 1)))
      → postpone x settings consumer run stream_id msg (calm w) ≡ (
        tt,
        record (calm w) { redis = defer_pipe x msg stream_id (w.now + 30000) (with_attempts n) },
      )
  unfolding postpone defer redis clock
  postpone_counted n counted =
      rw (hincr_counted _ _ (pos (n + 1)) (negsuc 0) (pos n) w.now w.redis counted (one_less n))

module _ (x : External) (settings : QueueSettings) (consumer : Text)
    (run : JobMessage → ℕ → Proc (Result JobOutcome JobError)) (stream_id : ℕ) (msg : JobMessage)
    (payload : Text) (w : World) (parsed : x.from_json payload ≡ some msg)
    (valid : validate_pipeline_prefix msg.prefix ≡ ok tt) where
  enter :
      handle_claimed x settings consumer run stream_id payload (calm w)
      ≡ guard_redelivery x settings consumer run stream_id msg (calm w)
  unfolding handle_claimed connect redis handle_message
  enter = rw (parsed, handle_message, valid)

  redelivered_path :
      is_terminal (hget w.now (live_key msg.job_id) (bytes "status") w.redis) ≡ true
      → (handle_claimed x settings consumer run stream_id payload (calm w)).1
        ≡ record (calm w) { redis = xack stream_id w.redis }
  unfolding guard_redelivery redis
  redelivered_path ended = rw enter (rw ended)

  terminal_status :
      {status : Text}
      → (status ≡ bytes "completed") ⊎ ((status ≡ bytes "failed") ⊎ (status ≡ bytes "abandoned"))
      → is_terminal (some (str status)) ≡ true
  terminal_status (inl e) = ground (arith, e)
  terminal_status (inr (inl e)) = ground (arith, e)
  terminal_status (inr (inr e)) = ground (arith, e)

  -- Undisturbed, a redelivery of a job whose status is `completed`, `failed` or `abandoned` is taken
  -- off the pending deliveries, and no other delivery is. Nothing is run or counted: the hashes, the
  -- locks, the sorted sets, the stream and the database stay as they are.
  pub redelivered :
      {status : Text}
      → hget w.now (live_key msg.job_id) (bytes "status") w.redis ≡ some (str status)
      → (status ≡ bytes "completed") ⊎ ((status ≡ bytes "failed") ⊎ (status ≡ bytes "abandoned"))
      → let w' = (handle_claimed x settings consumer run stream_id payload (calm w)).1 in
        (is_pending stream_id w'.redis ≡ false)
        × ((id : ℕ) → id ≢ stream_id → is_pending id w'.redis ≡ is_pending id w.redis)
        × (w'.redis.hashes ≡ w.redis.hashes)
        × (w'.redis.strings ≡ w.redis.strings)
        × (w'.redis.zsets ≡ w.redis.zsets)
        × (w'.redis.stream ≡ w.redis.stream)
        × (w'.db ≡ w.db)
  redelivered {status} there ended =
      let path = redelivered_path (rw there (terminal_status {status = status} ended)) in
      rw path (
        rw is_pending-xack (rw (==_refl stream_id)),
        λ id other. ground (arith, other, is_pending-xack stream_id id w.redis),
        unfold xack in refl,
        unfold xack in refl,
        unfold xack in refl,
        unfold xack in refl,
        refl,
      )

  -- Redis after the attempt is counted and taken back.
  abbrev untouched : ℕ → Redis
  untouched n =
      hset w.now (live_key msg.job_id) (bytes "attempts") (int (pos n))
        (with_attempts x settings consumer run stream_id msg w (n + 1))

  postponed_path :
      {v : Field} {n : ℕ}
      → is_terminal (hget w.now (live_key msg.job_id) (bytes "status") w.redis) ≡ false
      → hget w.now (live_key msg.job_id) (bytes "attempts") w.redis ≡ some (int (pos n))
      → n < settings.max_attempts
      → settings.max_attempts < 2 ^ 32
      → get_string w.now (lock_key msg.pipeline) w.redis ≡ some v
      → handle_claimed x settings consumer run stream_id payload (calm w)
        ≡ (tt, record (calm w) { redis = defer_pipe x msg stream_id (w.now + 30000) (untouched n) })
  unfolding guard_redelivery redis
  postponed_path {v} {n} going counted room small busy =
      let w₁ : World = record w {
        redis = with_attempts x settings consumer run stream_id msg w (n + 1);
      } in
      enter
      ∙ rw (guard_redelivery, going)
          (count_attempt_next x settings consumer run stream_id msg w n counted room small
            ∙ acquire_busy x settings consumer run stream_id msg w₁ (n + 1) {v = v}
                (unfold hset get_string in busy)
            ∙ postpone_counted x settings consumer run stream_id msg w₁ n
                (rw hget-hset (rw (==_refl (live_key msg.job_id), ==_refl (bytes "attempts")))))

  -- A busy pipeline postpones the job: the attempt is not counted, the message waits for 30 s in the
  -- delayed set, the entry is acknowledged, and the holder of the lock keeps it.
  pub postponed :
      {v : Field} {n : ℕ}
      → is_terminal (hget w.now (live_key msg.job_id) (bytes "status") w.redis) ≡ false
      → hget w.now (live_key msg.job_id) (bytes "attempts") w.redis ≡ some (int (pos n))
      → n < settings.max_attempts
      → settings.max_attempts < 2 ^ 32
      → get_string w.now (lock_key msg.pipeline) w.redis ≡ some v
      → let w' = (handle_claimed x settings consumer run stream_id payload (calm w)).1 in
        (hget w.now (live_key msg.job_id) (bytes "attempts") w'.redis ≡ some (int (pos n)))
        × (zscore delayed_key (x.to_json msg) w'.redis ≡ some (pos (w.now + 30000)))
        × (is_pending stream_id w'.redis ≡ false)
        × (get_string w.now (lock_key msg.pipeline) w'.redis ≡ some v)
        × (w'.db ≡ w.db)
  postponed {v} {n} going counted room small busy =
      rw (postponed_path going counted room small busy) (
        rw hget-defer_pipe
            (rw hget-hset (rw (==_refl (live_key msg.job_id), ==_refl (bytes "attempts")))),
        unfold defer_pipe xack zscore in
            zscore-zadd delayed_key (x.to_json msg) (pos (w.now + 30000)) (untouched n),
        unfold defer_pipe in rw is_pending-xack (rw (==_refl stream_id)),
        unfold defer_pipe xack zadd hset get_string in busy,
        refl,
      )
