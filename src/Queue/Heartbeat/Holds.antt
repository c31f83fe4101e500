-- ===== src/Queue/Heartbeat/Holds.antt =====
-- The heartbeat of a running job beside the requests of other workers.
use karet_worker.Common.{
  ℕ, ◌+◌, ◌<◌, ◌≡◌, ◌≢◌, ap, Bool, true, false, some, List, [], ◌∷◌, arith, text_eq, All,
}
use karet_worker.Common.Dict.{lookup-insert}
use karet_worker.Common.Result.{Result, ok}
use karet_worker.Common.Text.{Text}
use karet_worker.Queue.Store.{str, Redis, get_string, put_string}
use karet_worker.Queue.Keys.{fence, lock_key}
use karet_worker.Queue.Commands.{renew_step, renew_lock}
use karet_worker.Queue.Locks.{LockRequest, fence_of, serve_locks, HeldUntil, serve_locks-HeldUntil}
use karet_worker.Queue.Message.{JobMessage}
use karet_worker.Queue.World.{World, Proc, redis, connect, calm}
use karet_worker.Queue.Heartbeat.{
  Pulse, beating, lost, xclaim, reset_idle, on_renewed, renewal, tick,
}

-- The ticks of the interval, each with its time and with what the other workers ask before it.
abbrev pub Schedule : Type 0
Schedule = List (ℕ × List (ℕ × LockRequest))

-- Before a tick the others are served.
abbrev pub until_tick : Text → ℕ → List (ℕ × LockRequest) → World → World
until_tick pipeline now others w = record w {
  now = now;
  redis = serve_locks pipeline others w.redis;
}

-- Every tick, and every request of another fence, comes before the expiry that the tick before it
-- has set, and the first ones before the given one.
unfoldable pub Timely : ℕ → Text → ℕ → Schedule → Type 0
Timely ttl f t [] = Unit {0}
Timely ttl f t ((now, others) ∷ ticks) =
    All (λ (e : ℕ × LockRequest). (e.0 < t) × (fence_of e.1 ≢ f)) others
    × (now < t)
    × Timely ttl f (now + ttl) ticks

-- The expiry behind the ticks.
unfoldable pub last_expiry : ℕ → ℕ → Schedule → ℕ
last_expiry ttl t [] = t
last_expiry ttl t ((now, others) ∷ ticks) = last_expiry ttl (now + ttl) ticks

renew_step-HeldUntil :
    (pipeline f : Text) (t ttl now : ℕ) (r : Redis)
    → HeldUntil pipeline f t r
    → now < t
    → renew_step pipeline f ttl now r ≡ (true, put_string (lock_key pipeline) (str f) (now + ttl) r)
unfolding renew_step get_string
renew_step-HeldUntil pipeline f t ttl now r h lt = ground (arith, h)

put_string-HeldUntil :
    (pipeline f : Text) (t : ℕ) (r : Redis)
    → HeldUntil pipeline f t (put_string (lock_key pipeline) (str f) t r)
unfolding put_string
put_string-HeldUntil pipeline f t r = ground (
  arith,
  lookup-insert (lock_key pipeline) (lock_key pipeline) (record { value = str f; expires = some t })
      r.strings,
)

module _ (ttl : ℕ) (consumer : Text) (stream_id : ℕ) (msg : JobMessage) (attempts : ℕ) where
  -- The heartbeat over a schedule.
  unfoldable pub beats : Schedule → Pulse → Proc Pulse
  beats [] p w = (p, w)
  beats ((now, others) ∷ ticks) p w =
      let (q, w') =
        tick ttl consumer stream_id msg attempts p (until_tick msg.pipeline now others w) in
      beats ticks q w'

  -- What a tick leaves of Redis.
  abbrev pub renewed : ℕ → Redis → Redis
  renewed now r =
      xclaim consumer stream_id now
        (put_string (lock_key msg.pipeline) (str (fence msg.job_id attempts)) (now + ttl) r)

  renew_lock-calm :
      (t : ℕ) (w : World)
      → HeldUntil msg.pipeline (fence msg.job_id attempts) t w.redis
      → w.now < t
      → renew_lock msg.pipeline (fence msg.job_id attempts) ttl (calm w) ≡ (
        ok true,
        calm (record w {
          redis =
              put_string
                (lock_key msg.pipeline)
                (str (fence msg.job_id attempts))
                (w.now + ttl)
                w.redis;
        }),
      )
  unfolding renew_lock redis
  renew_lock-calm t w h lt =
      ap (λ (p : Bool × Redis). (ok p.0, calm (record w { redis = p.1 })))
        (renew_step-HeldUntil msg.pipeline (fence msg.job_id attempts) t ttl w.now w.redis h lt)

  renewal-calm :
      (t : ℕ) (w : World)
      → HeldUntil msg.pipeline (fence msg.job_id attempts) t w.redis
      → w.now < t
      → renewal ttl consumer stream_id msg attempts (calm w)
        ≡ (beating true, calm (record w { redis = renewed w.now w.redis }))
  unfolding renewal on_renewed reset_idle redis
  renewal-calm t w h lt =
      ap (λ (p : Result Bool Text × World). on_renewed ttl consumer stream_id msg attempts p.0 p.1)
        (renew_lock-calm t w h lt)

  tick-calm :
      (t : ℕ) (b : Bool) (w : World)
      → HeldUntil msg.pipeline (fence msg.job_id attempts) t w.redis
      → w.now < t
      → tick ttl consumer stream_id msg attempts (beating b) (calm w)
        ≡ (beating true, calm (record w { redis = renewed w.now w.redis }))
  unfolding tick connect redis
  tick-calm t true w h lt = renewal-calm t w h lt
  tick-calm t false w h lt = renewal-calm t w h lt

  renewed-HeldUntil :
      (now : ℕ) (r : Redis)
      → HeldUntil msg.pipeline (fence msg.job_id attempts) (now + ttl) (renewed now r)
  unfolding xclaim
  renewed-HeldUntil now r =
      put_string-HeldUntil msg.pipeline (fence msg.job_id attempts) (now + ttl) r

  -- Undisturbed, a heartbeat whose ticks, and the requests of other workers under other fences, each
  -- come before the expiry that the tick before has set never cancels the run: it goes on beating,
  -- with its connection, and the lock is still held under its fence, until the time to live after
  -- the last tick.
  pub beats-HeldUntil :
      (ticks : Schedule) (t : ℕ) (b : Bool) (w : World)
      → HeldUntil msg.pipeline (fence msg.job_id attempts) t w.redis
      → Timely ttl (fence msg.job_id attempts) t ticks
      → let (p, w') = beats ticks (beating b) (calm w) in
        (p ≢ lost)
        × HeldUntil msg.pipeline (fence msg.job_id attempts) (last_expiry ttl t ticks) w'.redis
  unfolding beats Timely last_expiry
  beats-HeldUntil [] t b w h timely = (ground arith, h)
  beats-HeldUntil ((now, others) ∷ ticks) t b w h (apart, lt, timely) =
      let kept =
        serve_locks-HeldUntil msg.pipeline (fence msg.job_id attempts) t others w.redis h apart in
      rw (tick-calm t b (until_tick msg.pipeline now others w) kept lt, beats)
        (beats-HeldUntil ticks (now + ttl) true
          (record (until_tick msg.pipeline now others w) {
            redis = renewed now (serve_locks msg.pipeline others w.redis);
          })
          (renewed-HeldUntil now _) timely)
