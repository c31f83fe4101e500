-- ===== src/Queue/Commands.antt =====
-- The requests that src/queue.rs sends: enqueueing, the locks, deferral and published events.
use karet_worker.Common.{
  ℕ, suc, ◌+◌, Bool, true, false, Option, none, some, List, [], ◌∷◌, ◌++◌, ◌==◌, text_eq,
  if◌then◌else◌,
}
use karet_worker.Common.Int.{pos}
use karet_worker.Common.Result.{Result, ok, err}
use karet_worker.Common.Text.{Text, bytes}
use karet_worker.Queue.Store.{
  Field, str, int, Entry, Redis, get_string, put_string, del_string, hset, expire_hash, zadd, xack,
  publish,
}
use karet_worker.Queue.Keys.{live_key, index_key, lock_key, events_channel, delayed_key}
use karet_worker.Queue.Message.{JobMessage, External}
use karet_worker.Queue.World.{Proc, redis, redis_do, ◌>>=◌, ◌>>◌, pure}

unfoldable pub publish_job_event : Text → Text → Proc (Unit {0})
publish_job_event pipeline job_id = do
  _ ← redis_do (λ _. publish (events_channel pipeline) job_id)
  pure tt

-- XADD
unfoldable pub xadd : (List Entry → List Entry) → Text → Redis → Redis
xadd trim payload r = record r {
  stream = trim (r.stream ++ (record { id = r.next_id; payload = payload }) ∷ []);
  next_id = suc r.next_id;
}

abbrev pub bool_text : Bool → Text
bool_text true = bytes "true"
bool_text false = bytes "false"

-- The atomic pipeline of `enqueue`.
unfoldable pub enqueue_pipe : External → JobMessage → ℕ → Redis → Redis
unfolding xadd
enqueue_pipe x msg now r =
    let live = live_key msg.job_id in
    let r₁ = xadd x.trim (x.to_json msg) r in
    let r₂ = hset now live (bytes "status") (str (bytes "queued")) r₁ in
    let r₃ = hset now live (bytes "pipeline") (str msg.pipeline) r₂ in
    let r₄ = hset now live (bytes "trigger") (str msg.trigger) r₃ in
    let r₅ = hset now live (bytes "enqueued_at") (int msg.enqueued_at) r₄ in
    let r₆ = hset now live (bytes "clean_run") (str (bool_text msg.clean_run)) r₅ in
    let r₇ = zadd (index_key msg.pipeline) msg.job_id msg.enqueued_at r₆ in
    expire_hash now live 604800 r₇

unfoldable pub enqueue : External → JobMessage → Proc (Result (Unit {0}) Text)
enqueue x msg = do
  sent ← redis_do (enqueue_pipe x msg)
  elim sent [
    | err e ↦ pure (err e)
    | ok _ ↦ do publish_job_event msg.pipeline msg.job_id; pure (ok tt)
  ]

-- Does the key hold this very text?
abbrev pub holds : Option Field → Text → Bool
holds none t = false
holds (some (str s)) t = s == t
holds (some (int n)) t = false

-- SET key fence NX PX ttl
unfoldable pub lock_step : Text → Text → ℕ → ℕ → Redis → Bool × Redis
lock_step pipeline fence ttl_ms now r = elim (get_string now (lock_key pipeline) r) [
  | some _ ↦ (false, r)
  | none ↦ (true, put_string (lock_key pipeline) (str fence) (now + ttl_ms) r)
]

unfoldable pub try_lock : Text → Text → ℕ → Proc (Result Bool Text)
try_lock pipeline fence ttl_ms = redis (lock_step pipeline fence ttl_ms)

-- RELEASE_LOCK_LUA
unfoldable pub release_step : Text → Text → ℕ → Redis → Redis
release_step pipeline fence now r =
    if holds (get_string now (lock_key pipeline) r) fence
    then del_string (lock_key pipeline) r
    else r

unfoldable pub release_lock : Text → Text → Proc (Result (Unit {0}) Text)
release_lock pipeline fence = redis_do (release_step pipeline fence)

-- RENEW_LOCK_LUA
unfoldable pub renew_step : Text → Text → ℕ → ℕ → Redis → Bool × Redis
renew_step pipeline fence ttl_ms now r =
    if holds (get_string now (lock_key pipeline) r) fence
    then (true, put_string (lock_key pipeline) (str fence) (now + ttl_ms) r)
    else (false, r)

unfoldable pub renew_lock : Text → Text → ℕ → Proc (Result Bool Text)
renew_lock pipeline fence ttl_ms = redis (renew_step pipeline fence ttl_ms)

-- The atomic pipeline of `defer`.
unfoldable pub defer_pipe : External → JobMessage → ℕ → ℕ → Redis → Redis
defer_pipe x msg stream_id fire_at_ms r =
    xack stream_id (zadd delayed_key (x.to_json msg) (pos fire_at_ms) r)

unfoldable pub defer : External → JobMessage → ℕ → ℕ → Proc (Result (Unit {0}) Text)
defer x msg stream_id fire_at_ms = redis_do (λ _. defer_pipe x msg stream_id fire_at_ms)
