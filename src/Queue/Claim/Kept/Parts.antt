-- ===== src/Queue/Claim/Kept/Parts.antt =====
-- What becomes of a delivery under the requests and procedures that `handle_claimed` of src/queue.rs
-- is made of.
use karet_worker.Common.{ℕ, ◌<◌, ◌≡◌, refl, ◌≢◌, ◌⊎◌, inl, inr, true, none, some, arith, text_eq}
use karet_worker.Common.Int.{ℤ, pos}
use karet_worker.Common.Text.{Text, bytes}
use karet_worker.Job.Outcome.{JobOutcome}
use karet_worker.Queue.Store.{
  Field, str, Redis, hget, hset, zscore, xack, is_pending, publish, put_string, del_string,
}
use karet_worker.Queue.Store.Laws.{zscore-zadd}
use karet_worker.Queue.Keys.{live_key, delayed_key}
use karet_worker.Queue.Message.{JobMessage, External, QueueSettings}
use karet_worker.Queue.World.Spec.{
  State, Spec, Spec-pure, Spec-weaken, Spec-bind, Spec-redis, Spec-redis_keeps,
}
use karet_worker.Queue.Commands.{publish_job_event, lock_step, release_step, defer_pipe, defer}
use karet_worker.Queue.Finish.{Terminal, Outcome, finish_job}
use karet_worker.Queue.Finish.Status.{finish_job-Spec}
use karet_worker.Queue.Claim.{
  in_flight_up, in_flight_down, failed, hincr, is_terminal, ran, nothing_to_do, set_running,
}

module _ (x : External) (stream_id : ℕ) (msg : JobMessage) where
  abbrev pub Pending : State
  Pending now r = is_pending stream_id r ≡ true

  -- The message waits in the delayed set.
  abbrev pub Delayed : State
  Delayed now r = zscore delayed_key (x.to_json msg) r ≢ none

  abbrev pub Done : State
  Done now r = is_terminal (hget now (live_key msg.job_id) (bytes "status") r) ≡ true

  -- The delivery is pending, or the job is at its end, or it is to be delivered again later.
  abbrev pub Kept : State
  Kept now r = Pending now r ⊎ (Done now r ⊎ Delayed now r)

  of_finish : (a : Outcome) (now : ℕ) (r : Redis) → Pending now r ⊎ Done now r → Kept now r
  of_finish a now r (inl p) = inl p
  of_finish a now r (inr d) = inr (inl d)

  Delayed-defer_pipe :
      (fire_at now : ℕ) (r : Redis) → Delayed now (defer_pipe x msg stream_id fire_at r)
  unfolding defer_pipe xack zscore
  Delayed-defer_pipe fire_at now r h =
      cc (zscore-zadd delayed_key (x.to_json msg) (pos fire_at) r, h)

  pub defer-Spec : (fire_at : ℕ) → Spec (Pending) (defer x msg stream_id fire_at) (λ _. Kept)
  unfolding defer
  defer-Spec fire_at =
      Spec-redis _ (λ now r p. inr (inr (Delayed-defer_pipe fire_at now r))) (λ e now r p. inl p)
        (λ e now r p. inr (inr (Delayed-defer_pipe fire_at now r)))

  pub finish-Spec :
      (settings : QueueSettings) (attempts : ℕ) (t : Terminal)
      → 0 < settings.live_terminal_ttl_s
      → is_terminal (some (str t.status)) ≡ true
      → Spec (Pending) (finish_job x settings msg stream_id attempts t) (λ _. Kept)
  finish-Spec settings attempts t h terminal =
      Spec-weaken _ (finish_job-Spec x settings msg stream_id attempts t h terminal) of_finish

  -- The other requests leave the delivery.
  pub Pending-hset :
      (k f : Text) (v : Field) (now : ℕ) (r : Redis)
      → Pending now r
      → Pending now (hset now k f v r)
  unfolding hset is_pending
  Pending-hset k f v now r p = p

  pub Pending-hincr :
      (k f : Text) (n : ℤ) (now : ℕ) (r : Redis) → Pending now r → Pending now (hincr k f n now r).1
  unfolding hincr hset is_pending
  Pending-hincr k f n now r p = ground arith

  pub Pending-set_running :
      (consumer : Text) (now : ℕ) (r : Redis)
      → Pending now r
      → Pending now (set_running x consumer msg.job_id now r)
  unfolding set_running hset is_pending
  Pending-set_running consumer now r p = p

  pub Pending-lock_step :
      (f : Text) (ttl_ms : ℕ) (now : ℕ) (r : Redis)
      → Pending now r
      → Pending now (lock_step msg.pipeline f ttl_ms now r).1
  unfolding lock_step put_string is_pending
  Pending-lock_step f ttl_ms now r p = ground arith

  pub Pending-release_step :
      (f : Text) (now : ℕ) (r : Redis)
      → Pending now r
      → Pending now (release_step msg.pipeline f now r)
  unfolding release_step del_string is_pending
  Pending-release_step f now r p = ground arith

  pub publish-Spec : Spec (Pending) (publish_job_event msg.pipeline msg.job_id) (λ _. Pending)
  unfolding publish_job_event publish is_pending
  publish-Spec =
      Spec-bind _ _ (Spec-redis_keeps _ (λ now r p. p)) (λ a. Spec-pure tt (λ now r p. p))

  pub Done-xack : (now : ℕ) (r : Redis) → Done now r → Done now (xack stream_id r)
  unfolding xack hget
  Done-xack now r p = p

  pub up-Spec : Spec (Pending) in_flight_up (λ _. Pending)
  unfolding in_flight_up
  up-Spec = record { at = λ w p. p }

  pub down-Spec : Spec (Kept) in_flight_down (λ _. Kept)
  unfolding in_flight_down
  down-Spec = record { at = λ w p. p }

pub failed-status : (e : Text) → is_terminal (some (str (failed e).status)) ≡ true
unfolding failed bytes text_eq
failed-status e = refl

pub nothing_to_do-status : is_terminal (some (str nothing_to_do.status)) ≡ true
unfolding nothing_to_do bytes text_eq
nothing_to_do-status = refl

pub ran-status : (o : JobOutcome) → is_terminal (some (str (ran o).status)) ≡ true
unfolding ran
ran-status o = ground arith
