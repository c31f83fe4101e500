-- ===== src/Queue/Locks.antt =====
-- The lock of a pipeline under any requests of any workers (try_lock, renew_lock, release_lock).
pub mod Mutex
use karet_worker.Common.{
  ℕ, ◌+◌, ◌<◌, ◌≡◌, ◌≢◌, true, false, none, some, List, [], ◌∷◌, arith, text_eq, All,
}
use karet_worker.Common.Dict.{lookup, lookup-insert, lookup-erase}
use karet_worker.Common.Text.{Text}
use karet_worker.Queue.Store.{str, Redis, get_string, put_string, del_string}
use karet_worker.Queue.Keys.{lock_key}
use karet_worker.Queue.Commands.{holds, lock_step, release_step, renew_step}

-- What workers ask of the server about the lock of one pipeline, each with its fence.
pub data LockRequest : Type 0 where
  acquire renew : Text → ℕ → LockRequest
  release : Text → LockRequest

abbrev pub fence_of : LockRequest → Text
fence_of (acquire f _) = f
fence_of (renew f _) = f
fence_of (release f) = f

unfoldable pub serve_lock : Text → ℕ → LockRequest → Redis → Redis
serve_lock pipeline now (acquire f ttl) r = (lock_step pipeline f ttl now r).1
serve_lock pipeline now (renew f ttl) r = (renew_step pipeline f ttl now r).1
serve_lock pipeline now (release f) r = release_step pipeline f now r

-- Requests with the times at which they arrive.
unfoldable pub serve_locks : Text → List (ℕ × LockRequest) → Redis → Redis
serve_locks pipeline [] r = r
serve_locks pipeline ((now, q) ∷ qs) r = serve_locks pipeline qs (serve_lock pipeline now q r)

-- The lock of the pipeline is held under the fence until the time.
abbrev pub HeldUntil : Text → Text → ℕ → Redis → Type 0
HeldUntil pipeline f t r =
    lookup (lock_key pipeline) r.strings ≡ some (record { value = str f; expires = some t })

serve_lock-HeldUntil :
    (pipeline f : Text) (t now : ℕ) (q : LockRequest) (r : Redis)
    → HeldUntil pipeline f t r
    → now < t
    → fence_of q ≢ f
    → HeldUntil pipeline f t (serve_lock pipeline now q r)
unfolding serve_lock lock_step renew_step release_step get_string
serve_lock-HeldUntil pipeline f t now (acquire g ttl) r h lt ne = ground (arith, h)
serve_lock-HeldUntil pipeline f t now (renew g ttl) r h lt ne = ground (arith, h)
serve_lock-HeldUntil pipeline f t now (release g) r h lt ne = ground (arith, h)

-- Mutual exclusion: a lock held under a fence until a time is still held under that fence, with that
-- time, after any requests under other fences that arrive before it.
pub serve_locks-HeldUntil :
    (pipeline f : Text) (t : ℕ) (qs : List (ℕ × LockRequest)) (r : Redis)
    → HeldUntil pipeline f t r
    → All (λ (e : ℕ × LockRequest). (e.0 < t) × (fence_of e.1 ≢ f)) qs
    → HeldUntil pipeline f t (serve_locks pipeline qs r)
unfolding serve_locks
serve_locks-HeldUntil pipeline f t [] r h others = h
serve_locks-HeldUntil pipeline f t ((now, q) ∷ qs) r h ((lt, ne), others) =
    serve_locks-HeldUntil pipeline f t qs (serve_lock pipeline now q r)
      (serve_lock-HeldUntil pipeline f t now q r h lt ne) others

-- A release under a fence frees the lock if that fence holds it, and leaves every other lock.
pub release_step_lem :
    (pipeline f : Text) (now : ℕ) (r : Redis) (key : Text)
    → (holds (get_string now (lock_key pipeline) (release_step pipeline f now r)) f ≡ false)
      × (key ≢ lock_key pipeline
          → lookup key (release_step pipeline f now r).strings ≡ lookup key r.strings)
      × (holds (get_string now (lock_key pipeline) r) f ≡ false → release_step pipeline f now r ≡ r)
unfolding release_step del_string get_string
release_step_lem pipeline f now r key = ground (
  arith,
  lookup-erase (lock_key pipeline) (lock_key pipeline) r.strings,
  lookup-erase key (lock_key pipeline) r.strings,
)
