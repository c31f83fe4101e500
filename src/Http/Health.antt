-- ===== src/Http/Health.antt =====
-- `health` of src/http.rs.
use karet_worker.Common.{
  ℕ, Bool, true, false, ◌&&◌, Option, none, some, length, if◌then◌else◌, ◌++◌,
}
use karet_worker.Common.Int.{ℤ, pos, negsuc}
use karet_worker.Common.Result.{Result, ok, err}
use karet_worker.Common.Text.{Text, bytes}
use karet_worker.Queue.World.{Proc, redis, connect, ◌>>=◌, pure}

-- The text of a worker without a queue, or the members of the JSON object that there are.
pub data HealthBody : Type 0 where
  plain : Text → HealthBody
  report : Text → Text → ℤ → ℕ → HealthBody
  unreachable : Text → ℕ → HealthBody

abbrev is_length : ℤ → Bool
is_length (pos n) = true
is_length (negsuc n) = false

-- `unwrap_or(-1)`
abbrev depth_of : Result ℕ Text → ℤ
depth_of (ok n) = pos n
depth_of (err _) = negsuc 0

abbrev redis_text : ℤ → Text
redis_text depth = if is_length depth then bytes "ok" else bytes "error"

abbrev consumer_text : Bool → Text
consumer_text consumer_ok = if consumer_ok then bytes "ok" else bytes "reconnecting"

unfoldable pub in_flight_now : Proc ℕ
in_flight_now w = (w.in_flight, w)

unfoldable pub queue_report : Bool → ℕ → ℤ → ℕ × HealthBody
queue_report consumer_ok in_flight depth = (
  if consumer_ok && is_length depth then 200 else 503,
  report (redis_text depth) (consumer_text consumer_ok) depth in_flight,
)

-- The status and the body; `queue` holds whether the consumer is connected, where there is a queue.
unfoldable pub health : Option Bool → Proc (ℕ × HealthBody)
health none = pure (200, plain (bytes "ok"))
health (some consumer_ok) = do
  in_flight ← in_flight_now
  connected ← connect
  elim connected [
    | err e ↦ pure (503, unreachable (bytes "error: " ++ e) in_flight)
    | ok _ ↦ do
      depth ← redis (λ _ r. (length r.stream, r))
      pure (queue_report consumer_ok in_flight (depth_of depth))
  ]
