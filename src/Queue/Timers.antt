-- ===== src/Queue/Timers.antt =====
-- What src/queue.rs does by the clock: one round of `delayed_mover_loop`, `debounce_event`, and one
-- round of `debounce_scheduler_loop`, with the scripts that the rounds send.
pub mod Due
pub mod Window
use karet_worker.Common.{
  ℕ, zero, suc, ◌+◌, ◌*◌, Bool, true, false, ◌&&◌, ◌||◌, not, Option, none, some, List, [], ◌∷◌,
  ◌++◌, map, length, retain, if◌then◌else◌, text_eq,
}
use karet_worker.Common.Dict.{Dict, lookup}
use karet_worker.Common.Int.{ℤ, pos, negsuc, ◌+ℤ◌, leb_ℤ, neg_part}
use karet_worker.Common.Result.{Result, ok, err}
use karet_worker.Common.Text.{Text, bytes, text_le, parse_i64}
use karet_worker.Queue.Store.{
  Field, str, int, Redis, get_string, put_string, del_string, zadd, zrem, or_empty,
}
use karet_worker.Queue.Keys.{delayed_key, debounce_key, debounce_first_key, quiet_ms, max_wait_ms}
use karet_worker.Queue.Message.{JobMessage, External}
use karet_worker.Queue.World.{Proc, redis, redis_do, clock, ◌>>=◌, ◌>>◌, pure}
use karet_worker.Queue.Commands.{xadd, enqueue}

-- The order of a sorted set: by score, then by member.
abbrev comes_before : Text × ℤ → Text × ℤ → Bool
comes_before (m, s) (n, t) = not (leb_ℤ t s) || (leb_ℤ s t && text_le m n)

unfoldable pub insert_scored : Text × ℤ → Dict Text ℤ → Dict Text ℤ
insert_scored e [] = e ∷ []
insert_scored e (f ∷ fs) =
    let rest = insert_scored e fs in if comes_before e f then e ∷ f ∷ fs else f ∷ rest

unfoldable pub sort_scored : Dict Text ℤ → Dict Text ℤ
sort_scored [] = []
sort_scored (e ∷ es) = insert_scored e (sort_scored es)

abbrev pub first_members : ℕ → Dict Text ℤ → List Text
first_members zero es = []
first_members (suc n) [] = []
first_members (suc n) ((m, s) ∷ es) = m ∷ first_members n es

-- ZRANGEBYSCORE key -inf now LIMIT 0 10
unfoldable pub range_due : Text → ℕ → Redis → List Text
range_due key now r =
    first_members 10
      (sort_scored (retain (λ e. leb_ℤ e.1 (pos now)) (or_empty (lookup key r.zsets))))

-- The loop of MOVE_DUE_LUA.
unfoldable pub move_all : External → List Text → Redis → Redis
move_all x [] r = r
move_all x (payload ∷ due) r = move_all x due (xadd x.trim payload (zrem delayed_key payload r))

-- MOVE_DUE_LUA
unfoldable pub move_due : External → ℕ → Redis → ℕ × Redis
move_due x now r = let due = range_due delayed_key now r in (length due, move_all x due r)

-- The body of the loop of the mover, with a connection.
unfoldable pub mover_round : External → Proc (Result ℕ Text)
mover_round x = redis (move_due x)

-- SET key now NX GET PX ttl: what was there.
unfoldable pub set_first : Text → ℕ → Redis → Option Field × Redis
set_first slug now r = elim (get_string now (debounce_first_key slug) r) [
  | some v ↦ (some v, r)
  | none ↦ (none, put_string (debounce_first_key slug) (int (pos now)) (now + max_wait_ms * 4) r)
]

abbrev parse_field : Field → Option ℤ
parse_field (int z) = some z
parse_field (str s) = parse_i64 s

-- `first.and_then(|s| s.parse().ok()).unwrap_or(now)`
abbrev pub batch_start : ℕ → Option Field → ℤ
batch_start now none = pos now
batch_start now (some v) = elim (parse_field v) [ some z ↦ z | none ↦ pos now ]

abbrev pub min_ℤ : ℤ → ℤ → ℤ
min_ℤ a b = if leb_ℤ a b then a else b

abbrev pub negate : ℤ → ℤ
negate (pos zero) = pos zero
negate (pos (suc n)) = negsuc n
negate (negsuc n) = pos (suc n)

abbrev pub fire_at : ℕ → Option Field → ℤ
fire_at now first = min_ℤ (pos (now + quiet_ms)) (batch_start now first +ℤ pos max_wait_ms)

unfoldable pub debounce_event : Text → Proc (Result ℤ Text)
debounce_event slug = do
  now ← clock
  first ← redis (set_first slug)
  elim first [
    | err e ↦ pure (err e)
    | ok before ↦ do
      added ← redis_do (λ _. zadd debounce_key slug (fire_at now before))
      elim added [
        | err e ↦ pure (err e)
        | ok _ ↦ pure (ok (fire_at now before +ℤ negate (pos now)))
      ]
  ]

-- The loop of POP_DUE_LUA.
unfoldable pub pop_all : List Text → Redis → Redis
pop_all [] r = r
pop_all (slug ∷ due) r =
    pop_all due (del_string (debounce_first_key slug) (zrem debounce_key slug r))

-- POP_DUE_LUA
unfoldable pub pop_due : ℕ → Redis → List Text × Redis
pop_due now r = let due = range_due debounce_key now r in (due, pop_all due r)

-- The message for a window that has closed.
unfoldable pub webhook_message : Text → Text → ℕ → JobMessage
webhook_message job_id slug now = record {
  job_id = job_id;
  pipeline = slug;
  prefix = bytes "pipelines/" ++ (slug ++ bytes "/");
  config_version_id = none;
  clean_run = false;
  trigger = bytes "webhook";
  enqueued_at = pos now;
}

-- `new_id n` is the job id drawn for the n-th slug. A failed enqueue is logged and passed over.
unfoldable pub fire_all : External → (ℕ → Text) → ℕ → List Text → Proc (Unit {0})
fire_all x new_id n [] = pure tt
fire_all x new_id n (slug ∷ slugs) = do
  now ← clock
  _ ← enqueue x (webhook_message (new_id n) slug now)
  fire_all x new_id (suc n) slugs

-- The body of the loop of the scheduler, with a connection.
unfoldable pub scheduler_round : External → (ℕ → Text) → Proc (Result (Unit {0}) Text)
scheduler_round x new_id = do
  due ← redis pop_due
  elim due [ err e ↦ pure (err e) | ok slugs ↦ do fire_all x new_id 0 slugs; pure (ok tt) ]
