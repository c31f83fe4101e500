-- ===== src/Queue/Message.antt =====
-- The message of a job, the settings of the queue, and what the worker takes from other crates.
use karet_worker.Common.{ℕ, ◌≡◌, Bool, Option, some, List}
use karet_worker.Common.Int.{ℤ}
use karet_worker.Common.Text.{Text}
use karet_worker.Queue.Store.{Entry}

pub record JobMessage : Type 0 where
  pub job_id : Text
  pub pipeline : Text
  pub prefix : Text
  pub config_version_id : Option ℤ
  pub clean_run : Bool
  pub trigger : Text
  pub enqueued_at : ℤ

pub record QueueSettings : Type 0 where
  pub max_attempts : ℕ
  pub lock_ttl_ms : ℕ
  pub heartbeat_ms : ℕ
  pub reclaim_idle_ms : ℕ
  pub live_terminal_ttl_s : ℕ

unfoldable pub default_settings : QueueSettings
default_settings = record {
  max_attempts = 3;
  lock_ttl_ms = 90000;
  heartbeat_ms = 30000;
  reclaim_idle_ms = 120000;
  live_terminal_ttl_s = 86400;
}

-- serde_json's printer and parser of messages, chrono's time format, and the entries that Redis
-- keeps of a stream when it trims it to about `STREAM_MAXLEN` of them.
pub record External : Type 0 where
  pub to_json : JobMessage → Text
  pub from_json : Text → Option JobMessage
  pub iso : ℕ → Text
  pub trim : List Entry → List Entry

-- What is printed is parsed back, with the missing fields at their defaults.
pub record IsFaithful (x : External) : Type 0 where
  pub from_json-to_json : (msg : JobMessage) → x.from_json (x.to_json msg) ≡ some msg
