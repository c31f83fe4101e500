-- ===== src/Queue/Heartbeat.antt =====
-- The heartbeat of a running job, in `handle_claimed` of src/queue.rs: it renews the lock of the
-- pipeline and the delivery of the message, and cancels the run when the lock is lost.
pub mod Holds
use karet_worker.Common.{ℕ, Bool, true, false, ◌==◌, nat_eq, map, List, [], ◌∷◌, if◌then◌else◌}
use karet_worker.Common.Result.{Result, ok, err}
use karet_worker.Common.Text.{Text}
use karet_worker.Queue.Store.{Delivery, Redis}
use karet_worker.Queue.Keys.{fence}
use karet_worker.Queue.Commands.{renew_lock}
use karet_worker.Queue.Message.{JobMessage}
use karet_worker.Queue.World.{World, Proc, redis_do, connect, ◌>>=◌, pure}

-- The heartbeat between two ticks: it goes on, with its connection or without one, or it has
-- cancelled the run.
pub data Pulse : Type 0 where
  beating : Bool → Pulse
  lost : Pulse

-- XCLAIM of a delivered entry, with IDLE 0 and JUSTID: nothing happens to an acknowledged one.
abbrev pub claimed_by : Text → ℕ → ℕ → Delivery → Delivery
claimed_by consumer now id d =
    if d.id == id then record { id = id; consumer = consumer; since = now } else d

unfoldable pub xclaim : Text → ℕ → ℕ → Redis → Redis
xclaim consumer id now r = record r { pending = map (claimed_by consumer now id) r.pending }

module _ (lock_ttl_ms : ℕ) (consumer : Text) (stream_id : ℕ) (msg : JobMessage) (attempts : ℕ) where
  unfoldable pub reset_idle : Proc Pulse
  reset_idle = do
    claimed ← redis_do (xclaim consumer stream_id)
    elim claimed [ ok _ ↦ pure (beating true) | err _ ↦ pure (beating false) ]

  unfoldable pub on_renewed : Result Bool Text → Proc Pulse
  on_renewed (ok true) = reset_idle
  on_renewed (ok false) = pure lost
  on_renewed (err _) = pure (beating false)

  unfoldable pub renewal : Proc Pulse
  renewal = do
    renewed ← renew_lock msg.pipeline (fence msg.job_id attempts) lock_ttl_ms
    on_renewed renewed

  -- What is done at a tick of the interval.
  unfoldable pub tick : Pulse → Proc Pulse
  tick lost = pure lost
  tick (beating true) = renewal
  tick (beating false) = do
    connected ← connect
    elim connected [ ok _ ↦ renewal | err _ ↦ pure (beating false) ]
