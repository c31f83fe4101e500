-- ===== src/Examples/Queue.antt =====
-- The queue with one job "j" of the pipeline "p", delivered once, while another job holds the lock.
use karet_worker.Common.{
  ◌≤◌, ◌≢◌, inl, All, length, ℕ, ◌+◌, ◌≡◌, refl, true, false, none, some, List, [], ◌∷◌, nat_eq,
  text_eq, ℕ_discrete, arith,
}
use karet_worker.Common.Dict.{lookup}
use karet_worker.Common.Int.{pos}
use karet_worker.Common.Result.{Result, ok, err}
use karet_worker.Common.Text.{Text, bytes, to_string, starts_with, ends_with_byte, split, drop_last}
use karet_worker.Db.{mark_finished}
use karet_worker.Job.Outcome.{JobOutcome, JobError, config_read}
use karet_worker.Queue.Store.{
  Field, str, int, Stored, Redis, get_string, hget, zscore, is_pending, hset, fields,
}
use karet_worker.Queue.Keys.{live_key, lock_key, fence, delayed_key, backoff_ms}
use karet_worker.Queue.Message.{JobMessage, default_settings, External}
use karet_worker.Queue.World.{World, Proc, Fault, works, reply_lost, calm, pure}
use karet_worker.Queue.Commands.{holds}
use karet_worker.Queue.Finish.{fenced_out, finish_job, outcome_row, joined_error}
use karet_worker.Queue.Finish.Fenced.{finish_job_fenced, finish_job-calm}
use karet_worker.Queue.Claim.{failed, handle_claimed, settle, count_attempt, is_terminal}
use karet_worker.Http.Prefix.{
  max_prefix_len, validate_pipeline_prefix, check_segments, check_segment, is_segment_byte,
}
use karet_worker.Http.Prefix.Grammar.{IsSegment, path_of, validate_pipeline_prefix_lem}
use karet_worker.Queue.Claim.Kept.Parts.{Kept}
use karet_worker.Queue.Claim.NoLoss.{handle_claimed_kept}
use karet_worker.Queue.Claim.Busy.{postponed, redelivered}
use karet_worker.Queue.Claim.Retry.{config_unread_retries, gave_up_busy}

abbrev key : Text
key = bytes "karet:jobs:live:j"

abbrev msg : JobMessage
msg = record {
  job_id = bytes "j";
  pipeline = bytes "p";
  prefix = bytes "pipelines/p/";
  config_version_id = none;
  clean_run = false;
  trigger = bytes "manual";
  enqueued_at = pos 0;
}

abbrev x : External
x = record { to_json = λ m. m.job_id; from_json = λ t. some msg; iso = λ t. []; trim = λ l. l }

abbrev run : JobMessage → ℕ → Proc (Result JobOutcome JobError)
run m attempts =
    pure
      (ok (record { partitions_written = 1; files_processed = 1; rows_deduped = 0; errors = [] }))

abbrev live : Text → ℕ → Stored (List (Text × Field))
live status attempts = record {
  value = (bytes "status", str status) ∷ (bytes "attempts", int (pos attempts)) ∷ [];
  expires = none;
}

abbrev redis_with : Text → ℕ → Text → Redis
redis_with status attempts holder = record {
  strings =
      (bytes "karet:lock:pipeline:p", record { value = str holder; expires = some 90000 }) ∷ [];
  hashes = (key, live status attempts) ∷ [];
  zsets = [];
  stream = record { id = 7; payload = bytes "j" } ∷ [];
  next_id = 8;
  pending = record { id = 7; consumer = bytes "w"; since = 0 } ∷ [];
  events = [];
}

abbrev world_with : Text → ℕ → Text → List Fault → World
world_with status attempts holder faults = record {
  redis = redis_with status attempts holder;
  db = record { jobs = []; config_versions = []; pipelines_current = [] };
  now = 1000;
  in_flight = 0;
  faults = faults;
}

abbrev busy_world : World
busy_world = world_with (bytes "queued") 1 (bytes "k:1") (works ∷ reply_lost (bytes "timeout") ∷ [])

pending_before : is_pending 7 busy_world.redis ≡ true
unfolding is_pending nat_eq ℕ_discrete
pending_before = refl

handle_claimed_kept_example :
    let w' = (handle_claimed x default_settings (bytes "w") run 7 (bytes "j") busy_world).1 in
    Kept x 7 msg w'.now w'.redis
unfolding default_settings
handle_claimed_kept_example =
    handle_claimed_kept x default_settings (bytes "w") run 7 msg (bytes "j") busy_world
      (omega arith) (λ attempts v p. p) refl pending_before

lock_held :
    get_string 1000 (lock_key (bytes "p")) (redis_with (bytes "queued") 1 (bytes "k:1"))
    ≡ some (str (bytes "k:1"))
unfolding get_string lock_key lookup bytes text_eq nat_eq ℕ_discrete
lock_held = refl

other_holds : holds (some (str (bytes "k:1"))) (fence (bytes "j") 2) ≡ false
unfolding fence bytes to_string text_eq nat_eq ℕ_discrete
other_holds = refl

own_free : holds (some (str (bytes "k:1"))) (fence (bytes "j") 3) ≡ false
unfolding fence bytes to_string text_eq nat_eq ℕ_discrete
own_free = refl

finish_job_fenced_example :
    let w' = (finish_job x default_settings msg 7 2 (failed (bytes "gone")) busy_world).1 in
    (w'.redis ≡ busy_world.redis) × (w'.db ≡ busy_world.db)
finish_job_fenced_example =
    finish_job_fenced x default_settings msg 7 2 (failed (bytes "gone")) busy_world lock_held
      other_holds

-- A world in which this job holds the lock.
abbrev own_world : World
own_world = world_with (bytes "running") 1 (bytes "j:1") []

own_lock :
    fenced_out x default_settings msg 7 1 (get_string 1000 (lock_key (bytes "p")) own_world.redis)
    ≡ false
unfolding get_string lock_key lookup bytes text_eq nat_eq ℕ_discrete fence to_string
own_lock = refl

finish_job-calm_example :
    let (result, w') =
      finish_job x default_settings msg 7 1 (failed (bytes "bad config")) (calm own_world) in
    (result ≡ ok tt)
    × (w'.db
        ≡ mark_finished 1000
            (bytes "j")
            (outcome_row (failed (bytes "bad config")) (joined_error (failed (bytes "bad config"))))
            own_world.db)
    × (hget 1000 (live_key (bytes "j")) (bytes "status") w'.redis
        ≡ some (str (failed (bytes "bad config")).status))
    × (is_pending 7 w'.redis ≡ false)
    × (holds (get_string 1000 (lock_key (bytes "p")) w'.redis) (fence (bytes "j") 1) ≡ false)
unfolding default_settings
finish_job-calm_example =
    finish_job-calm x default_settings msg 7 1 (failed (bytes "bad config")) own_world (omega arith)
      own_lock

config_unread_retries_example :
    let (result, w') =
      settle x default_settings
        (bytes "w")
        run
        7
        msg
        1
        (err (config_read (bytes "S3 503")))
        (calm own_world) in
    (result ≡ ok tt)
    × (zscore delayed_key (bytes "j") w'.redis ≡ some (pos (1000 + backoff_ms 1)))
    × (is_pending 7 w'.redis ≡ false)
    × (hget 1000 (live_key (bytes "j")) (bytes "status") w'.redis ≡ some (str (bytes "queued")))
    × (holds (get_string 1000 (lock_key (bytes "p")) w'.redis) (fence (bytes "j") 1) ≡ false)
    × (w'.db ≡ own_world.db)
unfolding default_settings
config_unread_retries_example =
    config_unread_retries x default_settings (bytes "w") run 7 msg own_world 1 (bytes "S3 503")
      (omega arith)

valid_prefix : validate_pipeline_prefix (bytes "pipelines/p/") ≡ ok tt
unfolding validate_pipeline_prefix check_segments check_segment is_segment_byte bytes starts_with
    ends_with_byte split drop_last text_eq nat_eq ℕ_discrete
valid_prefix = refl

going : is_terminal (hget 1000 (live_key (bytes "j")) (bytes "status") busy_world.redis) ≡ false
unfolding hget fields live_key lookup bytes text_eq nat_eq ℕ_discrete
going = refl

counted : hget 1000 (live_key (bytes "j")) (bytes "attempts") busy_world.redis ≡ some (int (pos 1))
unfolding hget fields live_key lookup bytes text_eq nat_eq ℕ_discrete
counted = refl

postponed_example :
    let w' =
      (handle_claimed x default_settings (bytes "w") run 7 (bytes "j") (calm busy_world)).1 in
    (hget 1000 (live_key (bytes "j")) (bytes "attempts") w'.redis ≡ some (int (pos 1)))
    × (zscore delayed_key (bytes "j") w'.redis ≡ some (pos (1000 + 30000)))
    × (is_pending 7 w'.redis ≡ false)
    × (get_string 1000 (lock_key (bytes "p")) w'.redis ≡ some (str (bytes "k:1")))
    × (w'.db ≡ busy_world.db)
unfolding default_settings
postponed_example =
    postponed x default_settings (bytes "w") run 7 msg (bytes "j") busy_world refl valid_prefix
      going counted (omega arith) (omega arith) lock_held

abbrev done_world : World
done_world = world_with (bytes "completed") 1 (bytes "k:1") []

completed :
    hget 1000 (live_key (bytes "j")) (bytes "status") done_world.redis
    ≡ some (str (bytes "completed"))
unfolding hget fields live_key lookup bytes text_eq nat_eq ℕ_discrete
completed = refl

redelivered_example :
    let w' =
      (handle_claimed x default_settings (bytes "w") run 7 (bytes "j") (calm done_world)).1 in
    (is_pending 7 w'.redis ≡ false)
    × ((id : ℕ) → id ≢ 7 → is_pending id w'.redis ≡ is_pending id done_world.redis)
    × (w'.redis.hashes ≡ done_world.redis.hashes)
    × (w'.redis.strings ≡ done_world.redis.strings)
    × (w'.redis.zsets ≡ done_world.redis.zsets)
    × (w'.redis.stream ≡ done_world.redis.stream)
    × (w'.db ≡ done_world.db)
redelivered_example =
    redelivered x default_settings (bytes "w") run 7 msg (bytes "j") done_world refl valid_prefix
      completed (inl refl)

-- A job whose three attempts are used up.
abbrev worn_world : World
worn_world = world_with (bytes "running") 3 (bytes "k:1") []

worn_counted :
    hget 1000 (live_key (bytes "j")) (bytes "attempts") worn_world.redis ≡ some (int (pos 3))
unfolding hget fields live_key lookup bytes text_eq nat_eq ℕ_discrete
worn_counted = refl

worn_busy : get_string 1000 (lock_key (bytes "p")) worn_world.redis ≡ some (str (bytes "k:1"))
unfolding get_string lock_key lookup bytes text_eq nat_eq ℕ_discrete
worn_busy = refl

worn_other : holds (some (str (bytes "k:1"))) (fence (bytes "j") (3 + 1)) ≡ false
unfolding fence bytes to_string text_eq nat_eq ℕ_discrete
worn_other = refl

gave_up_busy_example :
    let w' = (count_attempt x default_settings (bytes "w") run 7 msg (calm worn_world)).1 in
    (w'.redis
      ≡ hset 1000 (live_key (bytes "j")) (bytes "attempts") (int (pos (3 + 1))) worn_world.redis)
    × (w'.db ≡ worn_world.db)
unfolding default_settings
gave_up_busy_example =
    gave_up_busy x default_settings (bytes "w") run 7 msg worn_world worn_counted (omega arith)
      (omega arith) worn_busy worn_other

validate_pipeline_prefix_lem_example :
    (length (bytes "pipelines/p/") ≤ max_prefix_len)
    × ((segs : List Text) × ((bytes "pipelines/p/" ≡ path_of segs)
          × ((segs ≢ []) × All IsSegment segs)))
validate_pipeline_prefix_lem_example =
    validate_pipeline_prefix_lem (bytes "pipelines/p/") valid_prefix
