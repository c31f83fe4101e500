-- ===== src/Queue/Locks/Mutex.antt =====
-- The locks of all pipelines in Redis, against one mutex with a lease for each pipeline.
use karet_worker.Common.{
  ℕ, ◌+◌, ◌≡◌, ◌≢◌, Bool, false, Option, none, some, List, [], ◌∷◌, ◌==◌, text_eq, ltb,
  if◌then◌else◌, arith, Bool-cases, ==_iff, inl, inr, ◌∙◌,
}
use mathlib.Core.List.{append_cancel_left}
use karet_worker.Common.Dict.{lookup, lookup-insert, lookup-erase}
use karet_worker.Common.Text.{Text, bytes}
use karet_worker.Queue.Store.{Stored, Field, str, Redis, get_string, put_string, del_string}
use karet_worker.Queue.Keys.{lock_key}
use karet_worker.Queue.Commands.{lock_step, release_step, renew_step}
use karet_worker.Queue.Locks.{LockRequest, acquire, renew, release, serve_lock}

-- The last holder and the end of its lease.
abbrev pub Mutex : Type 0
Mutex = Option (Text × ℕ)

abbrev holds_lease : Text → ℕ → Mutex → Bool
holds_lease f now none = false
holds_lease f now (some (g, t)) = if ltb now t then g == f else false

abbrev leased : ℕ → Mutex → Bool
leased now none = false
leased now (some (g, t)) = ltb now t

unfoldable pub ask : ℕ → LockRequest → Mutex → Mutex
ask now (acquire f ttl) m = if leased now m then m else some (f, now + ttl)
ask now (renew f ttl) m = if holds_lease f now m then some (f, now + ttl) else m
ask now (release f) m = if holds_lease f now m then none else m

-- Requests with their times and pipelines; a mutex is asked those of its pipeline.
unfoldable pub ask_all : Text → List (ℕ × Text × LockRequest) → Mutex → Mutex
ask_all pipeline [] m = m
ask_all pipeline ((now, p, q) ∷ qs) m =
    ask_all pipeline qs (if p == pipeline then ask now q m else m)

unfoldable pub serve_all : List (ℕ × Text × LockRequest) → Redis → Redis
serve_all [] r = r
serve_all ((now, p, q) ∷ qs) r = serve_all qs (serve_lock p now q r)

-- What Redis stores for a mutex.
abbrev pub stored : Mutex → Option (Stored Field)
stored none = none
stored (some (f, t)) = some (record { value = str f; expires = some t })

-- Redis holds the mutex of the pipeline.
abbrev pub Implements : Text → Mutex → Redis → Type 0
Implements pipeline m r = lookup (lock_key pipeline) r.strings ≡ stored m

serve_lock-Implements :
    (pipeline : Text) (now : ℕ) (q : LockRequest) (m : Mutex) (r : Redis)
    → Implements pipeline m r
    → Implements pipeline (ask now q m) (serve_lock pipeline now q r)
unfolding serve_lock ask lock_step renew_step release_step get_string put_string del_string
serve_lock-Implements pipeline now (acquire f ttl) none r h = ground (
  arith,
  h,
  lookup-insert (lock_key pipeline) (lock_key pipeline)
      (record { value = str f; expires = some (now + ttl) }) r.strings,
)
serve_lock-Implements pipeline now (acquire f ttl) (some (g, t)) r h = ground (
  arith,
  h,
  lookup-insert (lock_key pipeline) (lock_key pipeline)
      (record { value = str f; expires = some (now + ttl) }) r.strings,
)
serve_lock-Implements pipeline now (renew f ttl) none r h = ground (arith, h)
serve_lock-Implements pipeline now (renew f ttl) (some (g, t)) r h = ground (
  arith,
  h,
  lookup-insert (lock_key pipeline) (lock_key pipeline)
      (record { value = str f; expires = some (now + ttl) }) r.strings,
)
serve_lock-Implements pipeline now (release f) none r h = ground (arith, h)
serve_lock-Implements pipeline now (release f) (some (g, t)) r h =
    ground (arith, h, lookup-erase (lock_key pipeline) (lock_key pipeline) r.strings)

serve_lock_other :
    (p pipeline : Text) (now : ℕ) (q : LockRequest) (r : Redis)
    → lock_key pipeline ≢ lock_key p
    → lookup (lock_key pipeline) (serve_lock p now q r).strings
      ≡ lookup (lock_key pipeline) r.strings
unfolding serve_lock lock_step renew_step release_step get_string put_string del_string
serve_lock_other p pipeline now (acquire f ttl) r ne = ground (
  arith,
  ne,
  lookup-insert (lock_key pipeline) (lock_key p)
      (record { value = str f; expires = some (now + ttl) }) r.strings,
)
serve_lock_other p pipeline now (renew f ttl) r ne = ground (
  arith,
  ne,
  lookup-insert (lock_key pipeline) (lock_key p)
      (record { value = str f; expires = some (now + ttl) }) r.strings,
)
serve_lock_other p pipeline now (release f) r ne =
    ground (arith, ne, lookup-erase (lock_key pipeline) (lock_key p) r.strings)

lock_key_inj : (p q : Text) → lock_key p ≡ lock_key q → p ≡ q
unfolding lock_key
lock_key_inj p q e = append_cancel_left (bytes "karet:lock:pipeline:") _ _ e

-- One request on any pipeline.
serve_one :
    (pipeline p : Text) (now : ℕ) (q : LockRequest) (m : Mutex) (r : Redis)
    → Implements pipeline m r
    → Implements pipeline (if p == pipeline then ask now q m else m) (serve_lock p now q r)
serve_one pipeline p now q m r h = elim (Bool-cases (p == pipeline)) [
  | inl same ↦
      rw same (rw ((==_iff p pipeline).0 same) (serve_lock-Implements pipeline now q m r h))
  | inr other ↦ rw (other) (
      serve_lock_other p pipeline now q r (λ e. ground (arith, other, lock_key_inj pipeline p e))
      ∙ h)
]

-- The locks of Redis refine one mutex with a lease for each pipeline: whatever workers request, on
-- whatever pipelines and at whatever times, Redis holds for a pipeline what its mutex is after the
-- requests on that pipeline alone; given that it holds the mutex before.
pub serve_all-Implements :
    (pipeline : Text) (qs : List (ℕ × Text × LockRequest)) (m : Mutex) (r : Redis)
    → Implements pipeline m r
    → Implements pipeline (ask_all pipeline qs m) (serve_all qs r)
unfolding ask_all serve_all
serve_all-Implements pipeline [] m r h = h
serve_all-Implements pipeline ((now, p, q) ∷ qs) m r h =
    serve_all-Implements pipeline qs (if p == pipeline then ask now q m else m)
      (serve_lock p now q r) (serve_one pipeline p now q m r h)
