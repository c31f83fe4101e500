-- ===== src/Queue/Keys.antt =====
-- The names of the keys in Redis, job ids and retry delays of src/queue.rs.
pub mod Laws
use Prim.Native.Nat.{◌^◌}
use karet_worker.Common.{
  ℕ, zero, suc, ◌+◌, ◌-◌, ◌*◌, ◌/◌, ◌%◌, List, [], ◌∷◌, ◌++◌, ltb, if◌then◌else◌, ◌==◌, nat_eq, min,
}
use karet_worker.Common.Text.{Text, bytes, to_string}

abbrev pub delayed_key : Text
delayed_key = bytes "karet:jobs:delayed"

abbrev pub debounce_key : Text
debounce_key = bytes "karet:debounce"

abbrev pub quiet_ms : ℕ
quiet_ms = 5000

abbrev pub max_wait_ms : ℕ
max_wait_ms = 30000

-- STREAM_MAXLEN
abbrev pub stream_maxlen : ℕ
stream_maxlen = 4096

unfoldable pub live_key : Text → Text
live_key job_id = bytes "karet:jobs:live:" ++ job_id

unfoldable pub index_key : Text → Text
index_key pipeline = bytes "karet:jobs:index:" ++ pipeline

unfoldable pub lock_key : Text → Text
lock_key pipeline = bytes "karet:lock:pipeline:" ++ pipeline

unfoldable pub debounce_first_key : Text → Text
debounce_first_key slug = bytes "karet:debounce:first:" ++ slug

unfoldable pub events_channel : Text → Text
events_channel pipeline = bytes "karet:jobs:events:" ++ pipeline

-- The value of a lock: `<job_id>:<attempt>`.
unfoldable pub fence : Text → ℕ → Text
fence job_id attempt = job_id ++ (bytes ":" ++ to_string attempt)

-- `DIGITS[d]`
abbrev pub digit36 : ℕ → ℕ
digit36 d = if ltb d 10 then b'0' + d else b'a' + (d - 10)

-- The `while` loop, on fuel; pushing and the final `reverse` are one accumulation in front.
unfoldable pub digits36 : ℕ → ℕ → Text → Text
digits36 zero n out = out
digits36 (suc fuel) n out =
    let rest = digits36 fuel (n / 36) (digit36 (n % 36) ∷ out) in if n == 0 then out else rest

-- n is an `i64` that is not negative; below that the source returns "0" at once too.
unfoldable pub to_base36 : ℕ → Text
to_base36 n = if n == 0 then bytes "0" else digits36 (suc n) n []

-- `base.saturating_mul(1i64 << attempts.saturating_sub(1).min(6))`: at most 30000 * 64, so that
-- nothing saturates.
unfoldable pub backoff_ms : ℕ → ℕ
backoff_ms attempts = min (30000 * 2 ^ min (attempts - 1) 6) 600000
