-- ===== src/Examples/Locks.antt =====
-- The lock of one pipeline: held by attempt 1 of a job, while others try.
use karet_worker.Common.{
  ℕ, suc, ◌*◌, ◌≤◌, min, ◌≡◌, ◌≢◌, refl, true, false, none, some, List, [], ◌∷◌, nat_eq, text_eq,
  ℕ_discrete, arith,
}
use karet_worker.Common.Dict.{lookup}
use karet_worker.Common.Int.{pos}
use karet_worker.Common.Text.{Text, bytes, to_string}
use karet_worker.Queue.Store.{str, Redis}
use karet_worker.Queue.Keys.{fence, lock_key, backoff_ms, to_base36}
use karet_worker.Queue.Keys.Laws.{backoff_ms_lem, base36_value, base36_value-to_base36}
use karet_worker.Queue.Locks.Mutex.{Implements, ask_all, serve_all, serve_all-Implements}
use karet_worker.Queue.Message.{JobMessage}
use karet_worker.Queue.Heartbeat.{beating, lost}
use karet_worker.Queue.Heartbeat.Holds.{Schedule, Timely, last_expiry, beats, beats-HeldUntil}
use karet_worker.Queue.World.{World, calm}
use karet_worker.Queue.Locks.{
  LockRequest, acquire, release, serve_locks, HeldUntil, serve_locks-HeldUntil,
}

abbrev held : Redis
held = record {
  strings = (lock_key (bytes "p"), record { value = str (bytes "j:1"); expires = some 90000 }) ∷ [];
  hashes = [];
  zsets = [];
  stream = [];
  next_id = 1;
  pending = [];
  events = [];
}

held_before : HeldUntil (bytes "p") (bytes "j:1") 90000 held
unfolding lookup lock_key bytes text_eq nat_eq ℕ_discrete
held_before = refl

other_fence : bytes "k:1" ≢ bytes "j:1"
unfolding bytes
other_fence e = ground arith

abbrev requests : List (ℕ × LockRequest)
requests = (1000, acquire (bytes "k:1") 90000) ∷ (2000, release (bytes "k:1")) ∷ []

serve_locks-HeldUntil_example :
    HeldUntil (bytes "p") (bytes "j:1") 90000 (serve_locks (bytes "p") requests held)
serve_locks-HeldUntil_example =
    serve_locks-HeldUntil (bytes "p") (bytes "j:1") 90000 requests held held_before
      ((omega arith, other_fence), ((omega arith, other_fence), tt))

-- Requests on two pipelines.
abbrev many : List (ℕ × Text × LockRequest)
many =
    (1000, bytes "q", acquire (bytes "k:1") 90000)
    ∷ (2000, bytes "p", acquire (bytes "k:1") 90000)
    ∷ (3000, bytes "p", release (bytes "j:1"))
    ∷ []

serve_all-Implements_example :
    Implements
      (bytes "p")
      (ask_all (bytes "p") many (some (bytes "j:1", 90000)))
      (serve_all many held)
serve_all-Implements_example =
    serve_all-Implements (bytes "p") many (some (bytes "j:1", 90000)) held held_before

backoff_ms_lem_example :
    (30000 ≤ backoff_ms 2)
    × (backoff_ms 2 ≤ 600000)
    × (backoff_ms 1 ≡ 30000)
    × (backoff_ms (suc (suc 2)) ≡ min (2 * backoff_ms (suc 2)) 600000)
backoff_ms_lem_example = backoff_ms_lem 2

base36_value-to_base36_example : base36_value 0 (to_base36 1234) ≡ 1234
base36_value-to_base36_example = base36_value-to_base36 1234

abbrev msg : JobMessage
msg = record {
  job_id = bytes "j";
  pipeline = bytes "p";
  prefix = bytes "acme/p/";
  config_version_id = none;
  clean_run = false;
  trigger = bytes "manual";
  enqueued_at = pos 0;
}

abbrev world : World
world = record {
  redis = held;
  db = record { jobs = []; config_versions = []; pipelines_current = [] };
  now = 0;
  in_flight = 1;
  faults = [];
}

-- Another attempt asks for the lock before the second tick.
abbrev ticks : Schedule
ticks = (30000, []) ∷ (60000, (50000, acquire (bytes "k:1") 90000) ∷ []) ∷ []

own_fence : fence (bytes "j") 1 ≡ bytes "j:1"
unfolding fence to_string bytes
own_fence = refl

held_own : HeldUntil (bytes "p") (fence (bytes "j") 1) 90000 held
held_own = rw (own_fence) held_before

ticks-Timely : Timely 90000 (fence (bytes "j") 1) 90000 ticks
unfolding Timely
ticks-Timely = rw (own_fence) (tt, omega arith, (((omega arith, other_fence), tt), omega arith, tt))

beats-HeldUntil_example :
    let (p, w') = beats 90000 (bytes "w") 7 msg 1 ticks (beating true) (calm world) in
    (p ≢ lost)
    × HeldUntil (bytes "p") (fence (bytes "j") 1) (last_expiry 90000 90000 ticks) w'.redis
beats-HeldUntil_example =
    beats-HeldUntil 90000 (bytes "w") 7 msg 1 ticks 90000 true world held_own ticks-Timely
