-- ===== src/Queue/Claim/NoLoss.antt =====
-- `handle_claimed` of src/queue.rs and the delivery of its message.
use karet_worker.Common.{ℕ, ◌<◌, ◌≡◌, true, some}
use karet_worker.Common.Result.{Result}
use karet_worker.Common.Text.{Text}
use karet_worker.Job.Outcome.{JobOutcome, JobError}
use karet_worker.Queue.Store.{is_pending}
use karet_worker.Queue.Message.{JobMessage, External, QueueSettings}
use karet_worker.Queue.World.{World, Proc}
use karet_worker.Queue.Claim.{handle_claimed}
use karet_worker.Queue.Claim.Kept.{handle_claimed-Kept}
use karet_worker.Queue.Claim.Kept.Parts.{Kept}

-- A delivered message is never lost: whatever requests to Redis or to the database fail, before or
-- after they are carried out, the delivery is still pending afterwards, or a terminal status stands
-- in the live hash, or the message waits in the delayed set. Conditions: the run of the job leaves
-- the delivery pending, the live hash of a finished job is kept for a positive time, the payload is
-- that message, and the delivery is pending before.
pub handle_claimed_kept :
    (x : External) (settings : QueueSettings) (consumer : Text)
    (run : JobMessage → ℕ → Proc (Result JobOutcome JobError)) (stream_id : ℕ) (msg : JobMessage)
    (payload : Text) (w : World)
    → 0 < settings.live_terminal_ttl_s
    → ((attempts : ℕ) (v : World)
        → is_pending stream_id v.redis ≡ true
        → is_pending stream_id (run msg attempts v).1.redis ≡ true)
    → x.from_json payload ≡ some msg
    → is_pending stream_id w.redis ≡ true
    → let w' = (handle_claimed x settings consumer run stream_id payload w).1 in
      Kept x stream_id msg w'.now w'.redis
handle_claimed_kept x settings consumer run stream_id msg payload w ttl keeps parsed pending =
    (handle_claimed-Kept x settings consumer run stream_id msg ttl
        (λ attempts. record { at = keeps attempts }) payload parsed).at
      w pending
