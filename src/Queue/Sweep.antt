-- ===== src/Queue/Sweep.antt =====
-- `sweep_orphaned_live_hashes` of src/queue.rs. The pages of SCAN count as one request.
pub mod Safe
use karet_worker.Common.{
  ℕ, zero, suc, ◌+◌, Bool, true, false, ◌||◌, not, Option, none, some, List, [], ◌∷◌, ◌++◌, ◌==◌,
  text_eq, retain, length, contains, if◌then◌else◌,
}
use karet_worker.Common.Dict.{Dict, lookup}
use karet_worker.Common.Int.{ℤ, pos, negsuc, ◌+ℤ◌, leb_ℤ}
use karet_worker.Common.Result.{Result, ok, err}
use karet_worker.Common.Text.{Text, bytes, starts_with, strip_prefix, to_string, parse_i64}
use karet_worker.Queue.Store.{
  Field, str, int, Stored, Hash, Entry, Redis, live_at, hget, hset, expire_hash,
}
use karet_worker.Queue.Message.{JobMessage, QueueSettings, External}
use karet_worker.Queue.World.{Proc, redis, redis_do, clock, ◌>>=◌, ◌>>◌, pure}
use karet_worker.Queue.Commands.{publish_job_event}

abbrev pub live_prefix : Text
live_prefix = bytes "karet:jobs:live:"

-- The job ids of the stream, or none if an entry cannot be read.
unfoldable pub stream_job_ids : External → List Entry → Option (List Text)
stream_job_ids x [] = some []
stream_job_ids x (entry ∷ entries) = elim (x.from_json entry.payload) [
  | none ↦ none
  | some msg ↦ elim (stream_job_ids x entries) [ none ↦ none | some ids ↦ some (msg.job_id ∷ ids) ]
]

-- SCAN MATCH karet:jobs:live:*
unfoldable pub scan_keys : ℕ → Dict Text (Stored Hash) → List Text
scan_keys now [] = []
scan_keys now ((key, h) ∷ hashes) =
    let rest = scan_keys now hashes in
    elim (live_at now (some h)) [
      | none ↦ rest
      | some _ ↦ if starts_with key live_prefix then key ∷ rest else rest
    ]

-- `trim_start_matches`: the prefix goes as often as it stands there.
strip_all : ℕ → Text → Text → Text
strip_all zero s p = s
strip_all (suc fuel) s p = elim (strip_prefix s p) [ none ↦ s | some t ↦ strip_all fuel t p ]

-- A stripped prefix is not empty, so that the length of the text is enough fuel.
unfoldable pub trim_start_matches : Text → Text → Text
unfolding strip_all
trim_start_matches s p = strip_all (length s) s p

abbrev print : ℤ → Text
print (pos n) = to_string n
print (negsuc n) = b'-' ∷ to_string (suc n)

abbrev pub as_text : Option Field → Option Text
as_text none = none
as_text (some (str s)) = some s
as_text (some (int z)) = some (print z)

-- A field that is there and is no integer fails the whole reply.
abbrev pub as_i64 : Option Field → Result (Option ℤ) Text
as_i64 none = ok none
as_i64 (some (int z)) = ok (some z)
as_i64 (some (str s)) = elim (parse_i64 s) [ some z ↦ ok (some z) | none ↦ err (bytes "TypeError") ]

abbrev is_live : Option Text → Bool
is_live none = false
is_live (some s) = s == bytes "queued" || s == bytes "running"

-- Is the hash to be marked: it is not terminal, and was enqueued before the cutoff?
abbrev pub orphaned : Option Text → Option ℤ → ℤ → Bool
orphaned status none cutoff = false
orphaned status (some enqueued_at) cutoff =
    if not (is_live status) || not (leb_ℤ enqueued_at cutoff) then false else true

-- The atomic pipeline that marks a hash.
unfoldable pub abandon : External → QueueSettings → Text → ℕ → Redis → Redis
abandon x settings key now r =
    let r₁ = hset now key (bytes "status") (str (bytes "abandoned")) r in
    let r₂ =
      hset now key (bytes "error") (str (bytes "queue entry lost (stream trimmed); re-run the job"))
        r₁ in
    let r₃ = hset now key (bytes "finished_at") (str (x.iso now)) r₂ in
    expire_hash now key settings.live_terminal_ttl_s r₃

abbrev tell : Option Text → Text → Proc (Unit {0})
tell none job_id = pure tt
tell (some pipeline) job_id = publish_job_event pipeline job_id

abbrev HashView : Type 0
HashView = Option Field × (Option Field × Option Field)

-- The three HGETs of one pipeline.
unfoldable pub view_hash : Text → ℕ → Redis → HashView × Redis
view_hash key now r = (
  (
    hget now key (bytes "status") r,
    (hget now key (bytes "enqueued_at") r, hget now key (bytes "pipeline") r),
  ),
  r,
)

module _ (x : External) (settings : QueueSettings) where
  unfoldable pub mark : Text → Text → Option Field → Proc (Result (Unit {0}) Text)
  mark key job_id pipeline = do
    marked ← redis_do (abandon x settings key)
    elim marked [ err e ↦ pure (err e) | ok _ ↦ do tell (as_text pipeline) job_id; pure (ok tt) ]

  unfoldable pub judge : Text → Text → ℤ → HashView → Proc (Result (Unit {0}) Text)
  judge key job_id cutoff (status, (enqueued_at, pipeline)) = elim (as_i64 enqueued_at) [
    | err e ↦ pure (err e)
    | ok at ↦ if orphaned (as_text status) at cutoff then mark key job_id pipeline else pure (ok tt)
  ]

  -- One key that the scan found.
  unfoldable pub sweep_key : List Text → ℤ → Text → Proc (Result (Unit {0}) Text)
  sweep_key ids cutoff key =
      let job_id = trim_start_matches key live_prefix in
      if contains ids job_id then pure (ok tt) else do
        view ← redis (view_hash key)
        elim view [ err e ↦ pure (err e) | ok v ↦ judge key job_id cutoff v ]

  unfoldable pub sweep_keys : List Text → ℤ → List Text → Proc (Result (Unit {0}) Text)
  sweep_keys ids cutoff [] = pure (ok tt)
  sweep_keys ids cutoff (key ∷ keys) = do
    swept ← sweep_key ids cutoff key
    elim swept [ err e ↦ pure (err e) | ok _ ↦ sweep_keys ids cutoff keys ]

  unfoldable pub sweep_ids : List Text → Proc (Result (Unit {0}) Text)
  sweep_ids ids = do
    keys ← redis (λ now r. (scan_keys now r.hashes, r))
    elim keys [
      | err e ↦ pure (err e)
      | ok live_keys ↦ do now ← clock; sweep_keys ids (pos now +ℤ negsuc 599999) live_keys
    ]

  unfoldable pub sweep_orphaned_live_hashes : Proc (Result (Unit {0}) Text)
  sweep_orphaned_live_hashes = do
    reply ← redis (λ _ r. (r.stream, r))
    elim reply [
      | err e ↦ pure (err e)
      | ok entries ↦ elim (stream_job_ids x entries) [
        | none ↦ pure (ok tt)
        | some ids ↦ sweep_ids ids
      ]
    ]
