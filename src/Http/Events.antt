-- ===== src/Http/Events.antt =====
-- `post_s3_events` of src/http.rs.
pub mod Guard
use karet_worker.Common.{
  ℕ, suc, ◌+◌, Bool, true, false, Option, none, some, List, [], ◌∷◌, ◌++◌, ◌==◌, text_eq, is_empty,
  contains, length, if◌then◌else◌,
}
use karet_worker.Common.Result.{Result, ok, err}
use karet_worker.Common.Text.{Text, bytes, starts_with, strip_prefix}
use karet_worker.Manifest.Bucket.{Bucket}
use karet_worker.Queue.World.{World, connect}
use karet_worker.Queue.Timers.{debounce_event}
use karet_worker.Http.Secret.{Response, error_response, constant_time_eq}
use karet_worker.Http.Decode.{urldecode}
use karet_worker.Http.Routing.{RoutingCache, route_key}

-- What the handler acts on: Redis and the clock, the bucket of the configurations, the routing cache.
pub record Server : Type 0 where
  pub world : World
  pub bucket : Bucket
  pub routing : RoutingCache

-- The configuration of the server that the handler reads.
pub record AppState : Type 0 where
  pub lake_bucket : Text
  pub has_client : Bool
  pub has_queue : Bool
  pub webhook_secret : Option Text

-- An event, with the members that are there: bucket name and key.
pub record S3EventRecord : Type 0 where
  pub event_name : Text
  pub bucket_name : Option Text
  pub object_key : Option Text

-- The headers, and the body: unreadable, or a text.
pub record Request : Type 0 where
  pub secret_header : Option Text
  pub authorization : Option Text
  pub body : Option Text

-- serde_json's parser of events and of configurations, and `from_utf8_lossy`.
pub record Parsers : Type 0 where
  pub payload : Text → Option (List S3EventRecord)
  pub source_prefixes : Text → Option (List Text)
  pub lossy : Text → Text

pub data Reply : Type 0 where
  refused : Response → Reply
  accepted : ℕ → List Text → Reply

-- `.filter(|s| !s.is_empty())`
abbrev pub configured : Option Text → Option Text
configured none = none
configured (some s) = if is_empty s then none else some s

abbrev without_bearer : Text → Text
without_bearer v = elim (strip_prefix v (bytes "Bearer ")) [ some t ↦ t | none ↦ v ]

abbrev raw_or_bearer : Option Text → Option Text
raw_or_bearer none = none
raw_or_bearer (some v) = some (without_bearer v)

abbrev pub provided : Request → Option Text
provided request = elim request.secret_header [
  | some s ↦ some s
  | none ↦ raw_or_bearer request.authorization
]

abbrev pub is_secret : Option Text → Text → Bool
is_secret none expected = false
is_secret (some secret) expected = constant_time_eq secret expected

-- The key of an event that counts: an object was created in the lake's bucket.
unfoldable pub upload_key : AppState → S3EventRecord → Option Text
upload_key state rec =
    if starts_with rec.event_name (bytes "s3:ObjectCreated:")
    then elim rec.bucket_name [
      | none ↦ none
      | some name ↦ if name == state.lake_bucket then rec.object_key else none
    ]
    else none

-- The loop over the slugs of one key.
unfoldable pub schedule : List Text → List Text → World → List Text × World
schedule [] scheduled w = (scheduled, w)
schedule (slug ∷ slugs) scheduled w =
    let (fired, w') = debounce_event slug w in
    schedule slugs
      (elim fired [
        | err _ ↦ scheduled
        | ok _ ↦ if contains scheduled slug then scheduled else scheduled ++ (slug ∷ [])
      ])
      w'

module _ (parsers : Parsers) (state : AppState) where
  -- The loop over the events.
  unfoldable pub take_events : List S3EventRecord → List Text → Server → List Text × Server
  take_events [] scheduled s = (scheduled, s)
  take_events (rec ∷ records) scheduled s = elim (upload_key state rec) [
    | none ↦ take_events records scheduled s
    | some key ↦
        let ((slugs, cache), bucket) =
          route_key parsers.source_prefixes state.has_client s.world.now s.routing
            (urldecode parsers.lossy key) s.bucket in
        let (scheduled', world) = schedule slugs scheduled s.world in
        take_events records scheduled' (record { world = world; bucket = bucket; routing = cache })
  ]

  -- With a payload that was parsed.
  unfoldable pub record_events : List S3EventRecord → Server → Reply × Server
  record_events records s =
      let (connected, w) = connect s.world in
      elim connected [
        | err e ↦ (
          refused
              (error_response 503 (bytes "redis_unavailable") (bytes "cannot record event: " ++ e)),
          record s { world = w },
        )
        | ok _ ↦
            let (scheduled, s') = take_events records [] (record s { world = w }) in
            (accepted (length records) scheduled, s')
      ]

  -- With a request that may be served.
  unfoldable pub read_body : Option Text → Server → Reply × Server
  read_body none s =
      (refused (error_response 400 (bytes "invalid_body") (bytes "unreadable body")), s)
  read_body (some body) s = elim (parsers.payload body) [
    | none ↦ (
      refused (error_response 400 (bytes "invalid_json") (bytes "body is not an S3 event payload")),
      s,
    )
    | some records ↦ record_events records s
  ]

  unfoldable pub check_secret : Request → Text → Server → Reply × Server
  check_secret request expected s =
      if is_secret (provided request) expected then read_body request.body s else (
        refused
            (error_response 401 (bytes "unauthorized") (bytes "missing or invalid webhook secret")),
        s,
      )

  unfoldable pub post_s3_events : Request → Server → Reply × Server
  post_s3_events request s =
      if state.has_queue
      then elim (configured state.webhook_secret) [
        | none ↦ (
          refused (
              error_response 401 (bytes "unauthorized") (bytes "webhook secret is not configured")),
          s,
        )
        | some expected ↦ check_secret request expected s
      ]
      else (
        refused (
            error_response 503 (bytes "queue_disabled")
              (bytes "REDIS_URL is not configured; webhook events have nowhere to go")),
        s,
      )
