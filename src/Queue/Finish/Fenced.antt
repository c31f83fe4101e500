-- ===== src/Queue/Finish/Fenced.antt =====
-- `finish_job` of src/queue.rs, fenced out and undisturbed.
use karet_worker.Common.{ℕ, ◌<◌, ◌≡◌, refl, false, some, [], arith, text_eq, ==_refl, nat_eq}
use karet_worker.Common.Result.{ok}
use karet_worker.Common.Text.{Text, bytes}
use karet_worker.Db.{mark_finished}
use karet_worker.Queue.Store.{
  Field, str, Redis, get_string, hget, publish, xack, is_pending, del_string,
}
use karet_worker.Queue.Store.Laws.{is_pending-xack}
use karet_worker.Queue.Keys.{live_key, lock_key, fence}
use karet_worker.Queue.Message.{JobMessage, External, QueueSettings}
use karet_worker.Queue.World.{World, redis, sql, calm}
use karet_worker.Queue.World.Spec.{redis_read}
use karet_worker.Queue.Commands.{holds, publish_job_event, release_lock, release_step}
use karet_worker.Queue.Locks.{release_step_lem}
use karet_worker.Queue.Finish.{
  Terminal, outcome_row, joined_error, fenced_out, release_and_ack, finish_live, finish_owned,
  finish_job,
}
use karet_worker.Queue.Finish.Status.{status-terminal_pipe}

hget-release_step :
    (pipeline f key name : Text) (now : ℕ) (r : Redis)
    → hget now key name (release_step pipeline f now r) ≡ hget now key name r
unfolding hget release_step del_string
hget-release_step pipeline f key name now r = ground arith

module _ (x : External) (settings : QueueSettings) (msg : JobMessage) (stream_id attempts : ℕ)
    (t : Terminal) (w : World) where
  -- A stale attempt writes nothing: when the lock of the pipeline is held under another fence, neither
  -- Redis nor the database changes, whatever requests fail.
  pub finish_job_fenced :
      {v : Field}
      → get_string w.now (lock_key msg.pipeline) w.redis ≡ some v
      → holds (some v) (fence msg.job_id attempts) ≡ false
      → let w' = (finish_job x settings msg stream_id attempts t w).1 in
        (w'.redis ≡ w.redis) × (w'.db ≡ w.db)
  unfolding finish_job
  finish_job_fenced {v} held other =
      ground (arith, held, redis_read (λ now r. get_string now (lock_key msg.pipeline) r) w)

  -- Undisturbed, with the lock held under this attempt's fence or not at all: the row is finished,
  -- the live hash has the status, the entry is acknowledged, the lock is no longer this attempt's.
  pub finish_job-calm :
      0 < settings.live_terminal_ttl_s
      → fenced_out x settings msg stream_id attempts
          (get_string w.now (lock_key msg.pipeline) w.redis)
        ≡ false
      → let (result, w') = finish_job x settings msg stream_id attempts t (calm w) in
        (result ≡ ok tt)
        × (w'.db ≡ mark_finished w.now msg.job_id (outcome_row t (joined_error t)) w.db)
        × (hget w.now (live_key msg.job_id) (bytes "status") w'.redis ≡ some (str t.status))
        × (is_pending stream_id w'.redis ≡ false)
        × (holds (get_string w.now (lock_key msg.pipeline) w'.redis) (fence msg.job_id attempts)
            ≡ false)
  unfolding finish_job finish_owned finish_live release_and_ack publish_job_event release_lock redis
      sql
  finish_job-calm ttl mine = rw mine (
    refl,
    refl,
    unfold xack publish hget in
        rw hget-release_step (status-terminal_pipe x _ msg.job_id t _ w.now w.redis ttl),
    rw is_pending-xack (rw (==_refl stream_id)),
    unfold xack get_string in (release_step_lem msg.pipeline _ w.now _ []).0,
  )
