-- ===== src/Examples/Requests.antt =====
-- A configuration, the webhook, and the timers of the queue.
use karet_worker.Common.{
  ◌+◌, ℕ, ◌≡◌, ◌≢◌, ◌≤◌, leb, Bool-cases, ap, ◌↔◌, refl, inl, inr, List, length, Bool, true, false,
  ◌&&◌, none, some, [], ◌∷◌, ◌++◌, map, ◌==◌, nat_eq, text_eq, ℕ_discrete, arith, ltb, contains,
  any, if◌then◌else◌,
}
use karet_worker.Common.Dict.{lookup}
use karet_worker.Common.Int.{pos, leb_ℤ}
use karet_worker.Common.Result.{ok}
use karet_worker.Common.Text.{Text, bytes, starts_with, ends_with_byte, split, strip_prefix}
use karet_worker.Config.Types.{SourceContainer, PipelineConfig, csv}
use karet_worker.Config.Check.{check_unique_and_required_ids, check_ids_from, flat_map_from}
use karet_worker.Config.Validate.{
  malformed, shape_errors, nested, nesting_error, nesting_errors, identity_errors, all_errors,
  validate,
}
use karet_worker.Config.Validate.Disjoint.{validate_disjoint}
use karet_worker.Http.Secret.{constant_time_eq}
use karet_worker.Http.Secret.Laws.{constant_time_eq_lem}
use karet_worker.Http.Decode.{urldecode}
use karet_worker.Http.Decode.RoundTrip.{encoded, urldecode-encoded}
use karet_worker.Http.Routing.{Entries, match_key}
use karet_worker.Http.Routing.Table.{Routed, contains-match_key}
use karet_worker.Http.Events.{Server, AppState, Request, Parsers, post_s3_events}
use karet_worker.Http.Events.Guard.{Brings, status_of, post_s3_events_guarded}
use karet_worker.Queue.Store.{Entry, Redis, str, int, get_string, hget, zscore, or_empty}
use karet_worker.Queue.Keys.{
  live_key, delayed_key, stream_maxlen, debounce_first_key, debounce_key, quiet_ms,
}
use karet_worker.Queue.Message.{JobMessage, External, default_settings}
use karet_worker.Queue.World.{World, works, reply_lost, calm}
use karet_worker.Queue.Timers.{range_due, move_due, debounce_event}
use karet_worker.Queue.Timers.Due.{IsTrim, move_due_once}
use karet_worker.Queue.Timers.Window.{Within, debounce_event-Within, debounce_event_first}
use karet_worker.Queue.Sweep.{
  live_prefix, stream_job_ids, trim_start_matches, sweep_orphaned_live_hashes,
}
use karet_worker.Queue.Sweep.Safe.{sweep_spares_streamed}

-- Two sources side by side.
abbrev source : Text → SourceContainer Unit
source p = record {
  id = p;
  name = p;
  path_prefix = p;
  format = csv;
  schema = [];
  record_filter = none;
}

abbrev config : PipelineConfig Unit
config = record {
  version = 1;
  source_containers = source (bytes "a/") ∷ source (bytes "b/") ∷ [];
  dimensions = [];
  mappings = [];
  analytic_tables = [];
  layout = [];
}

config_valid : validate config ≡ ok tt
unfolding validate all_errors identity_errors nesting_errors nesting_error nested malformed
    shape_errors flat_map_from check_unique_and_required_ids check_ids_from starts_with
    ends_with_byte split bytes text_eq nat_eq ℕ_discrete
config_valid = refl

key_matches : starts_with (bytes "b/2026.csv") (bytes "b/") ≡ true
unfolding starts_with bytes nat_eq ℕ_discrete
key_matches = refl

validate_disjoint_example : ◌≡◌ {A = ℕ} 1 1
validate_disjoint_example =
    validate_disjoint config 1 1 (bytes "b/2026.csv") config_valid refl refl key_matches key_matches

abbrev secret_text : Text
secret_text = 97 ∷ 98 ∷ []

abbrev guess : Text
guess = 97 ∷ 99 ∷ []

constant_time_eq_lem_example : (constant_time_eq secret_text guess ≡ true) ↔ (secret_text ≡ guess)
constant_time_eq_lem_example =
    constant_time_eq_lem secret_text guess (omega arith, (omega arith, tt))
      (omega arith, (omega arith, tt))

-- Letters stay as they are.
abbrev keeps : ℕ → Bool
keeps c = ltb 96 c

-- "a +", and "é" in UTF-8.
abbrev upload_name : Text
upload_name = 97 ∷ 32 ∷ 43 ∷ 195 ∷ 169 ∷ []

urldecode-encoded_example : urldecode (λ t. t) (encoded keeps upload_name) ≡ upload_name
urldecode-encoded_example =
    urldecode-encoded (λ t. t) keeps upload_name
      (omega arith, (omega arith, (omega arith, (omega arith, (omega arith, tt))))) refl refl refl

abbrev entries : Entries
entries = (bytes "a/", bytes "p") ∷ (bytes "a/", bytes "q") ∷ []

contains-match_key_example :
    (contains (match_key entries (bytes "a/x.csv")) (bytes "q") ≡ true)
    ↔ Routed entries (bytes "a/x.csv") (bytes "q")
contains-match_key_example = contains-match_key entries (bytes "a/x.csv") (bytes "q")

-- A server that trims to the limit.
unfoldable newest : List Entry → List Entry
newest [] = []
newest (e ∷ l) = let rest = newest l in if leb (length (e ∷ l)) stream_maxlen then e ∷ l else rest

newest-IsTrim : IsTrim newest
unfolding newest
newest-IsTrim = record { keeps_newest = suffix; within = short }
  where
    suffix : (l : List Entry) → (gone : List Entry) × (l ≡ gone ++ newest l)
    suffix [] = ([], refl)
    suffix (e ∷ l) = elim (Bool-cases (leb (length (e ∷ l)) stream_maxlen)) [
      | inl fits ↦ ([], rw (fits, newest) refl)
      | inr over ↦
          let (gone, same) = suffix l in (e ∷ gone, rw (over, newest) (ap (λ t. e ∷ t) same))
    ]

    short : (l : List Entry) → length l ≤ stream_maxlen → newest l ≡ l
    short [] h = refl
    short (e ∷ l) h = ground (arith, h)

-- A server with a job "j" waiting for its time, another one in the stream, and an upload of the
-- pipeline "p" at 500.
abbrev msg : JobMessage
msg = record {
  job_id = bytes "j";
  pipeline = bytes "p";
  prefix = bytes "pipelines/p/";
  config_version_id = none;
  clean_run = false;
  trigger = bytes "manual";
  enqueued_at = pos 0;
}

abbrev external : External
external = record {
  to_json = λ m. m.job_id;
  from_json = λ t. some msg;
  iso = λ t. [];
  trim = newest;
}

abbrev redis_state : Redis
redis_state = record {
  strings =
      (bytes "karet:debounce:first:p", record { value = int (pos 500); expires = some 120500 })
      ∷ [];
  hashes =
      (
        bytes "karet:jobs:live:j",
        record { value = (bytes "status", str (bytes "queued")) ∷ []; expires = none },
      )
      ∷ [];
  zsets =
      (bytes "karet:jobs:delayed", (bytes "j", pos 900) ∷ [])
      ∷ (bytes "karet:debounce", (bytes "p", pos 5500) ∷ [])
      ∷ [];
  stream = record { id = 7; payload = bytes "j" } ∷ [];
  next_id = 8;
  pending = [];
  events = [];
}

abbrev world : World
world = record {
  redis = redis_state;
  db = record { jobs = []; config_versions = []; pipelines_current = [] };
  now = 1000;
  in_flight = 0;
  faults = works ∷ reply_lost (bytes "timeout") ∷ [];
}

move_due_once_example :
    let due = range_due delayed_key 1000 redis_state in
    let r' = (move_due external 1000 redis_state).1 in
    ((gone : List Text) × (map (λ e. e.payload) redis_state.stream ++ due
        ≡ gone ++ map (λ e. e.payload) r'.stream))
    × (length redis_state.stream + length due ≤ stream_maxlen
        → map (λ e. e.payload) r'.stream ≡ map (λ e. e.payload) redis_state.stream ++ due)
    × ((k : Text)
        → zscore delayed_key k r'
          ≡ (if contains due k then none else zscore delayed_key k redis_state))
    × ((k : Text)
        → contains due k ≡ true
        → any
            (λ e. leb_ℤ e.1 (pos 1000) && k == e.0)
            (or_empty (lookup delayed_key redis_state.zsets))
          ≡ true)
move_due_once_example = move_due_once external 1000 redis_state newest-IsTrim

window_open : Within (bytes "p") 500 1000 redis_state
unfolding get_string debounce_first_key zscore lookup bytes text_eq nat_eq ℕ_discrete
window_open = (refl, omega arith)

debounce_event-Within_example :
    let w' = (debounce_event (bytes "p") world).1 in Within (bytes "p") 500 w'.now w'.redis
debounce_event-Within_example = debounce_event-Within (bytes "p") 500 world window_open

named : trim_start_matches (live_key (bytes "j")) live_prefix ≡ bytes "j"
unfolding trim_start_matches live_key strip_prefix bytes nat_eq ℕ_discrete
named = refl

streamed : contains (bytes "j" ∷ []) (bytes "j") ≡ true
unfolding bytes text_eq nat_eq ℕ_discrete
streamed = refl

stream_read : stream_job_ids external redis_state.stream ≡ some (bytes "j" ∷ [])
unfolding stream_job_ids
stream_read = refl

sweep_spares_streamed_example :
    let w' = (sweep_orphaned_live_hashes external default_settings world).1 in
    hget w'.now (live_key (bytes "j")) (bytes "status") w'.redis
    ≡ hget 1000 (live_key (bytes "j")) (bytes "status") redis_state
unfolding default_settings
sweep_spares_streamed_example =
    sweep_spares_streamed external default_settings (omega arith) world (bytes "j") (bytes "status")
      (bytes "j" ∷ []) stream_read streamed named

abbrev server : Server
server = record {
  world = world;
  bucket = record { objects = []; faults = [] };
  routing = record { built_at = none; entries = [] };
}

abbrev app : AppState
app = record {
  lake_bucket = bytes "lake";
  has_client = true;
  has_queue = true;
  webhook_secret = some secret_text;
}

abbrev parsers : Parsers
parsers = record { payload = λ t. some []; source_prefixes = λ t. some []; lossy = λ t. t }

abbrev request : Request
request = record { secret_header = some guess; authorization = none; body = some [] }

guess_is_wrong : guess ≢ secret_text
guess_is_wrong e = ground (arith, e)

wrong_secret :
    (expected : Text)
    → app.webhook_secret ≡ some expected
    → expected ≢ []
    → ¬ Brings request expected
wrong_secret expected set filled (inl e) = ground (arith, set, e, guess_is_wrong)
wrong_secret expected set filled (inr (none_set, e)) = ground (arith, none_set)

post_s3_events_guarded_example :
    let (reply, s') = post_s3_events parsers app request server in
    (s' ≡ server) × (status_of reply ≡ some 401)
post_s3_events_guarded_example =
    post_s3_events_guarded parsers app request server (omega arith, (omega arith, tt))
      (omega arith, (omega arith, tt)) tt wrong_secret

no_batch : get_string 1000 (debounce_first_key (bytes "q")) redis_state ≡ none
unfolding get_string debounce_first_key lookup bytes text_eq nat_eq ℕ_discrete
no_batch = refl

debounce_event_first_example :
    let (result, w') = debounce_event (bytes "q") (calm world) in
    (result ≡ ok (pos quiet_ms))
    × ((zscore debounce_key (bytes "q") w'.redis ≡ some (pos (1000 + quiet_ms)))
        × Within (bytes "q") 1000 1000 w'.redis)
debounce_event_first_example = debounce_event_first (bytes "q") world no_batch
