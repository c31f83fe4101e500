-- ===== src/Lib.antt =====
-- karet-worker, the job worker of the Karet analytics stack.
--
-- Jobs reach the worker over a Redis stream. A worker claims an entry, takes the lock of the job's
-- pipeline, runs the pipeline (source files from the lake bucket, mapping expressions, Parquet files
-- to the warehouse bucket), publishes the new version of each table by a manifest and a pointer, and
-- records the end of the job in Postgres and in a live hash of Redis. Uploads enter by a webhook,
-- which routes the key to pipelines and schedules a job for each after a quiet time.
--
-- The parts, and the code that they model:
--   Assertions src/assertions.rs: validate_assertions, check_column.
--   Ast        src/ast.rs, and walk_ast of src/config.rs: expressions. `f64` is a type parameter.
--   Config     src/config.rs: Types holds the records, Check the checks of one mapping or table,
--              Validate the function validate, which appends the errors of all checks in order.
--   Db         src/db.rs: each statement is a function on the tables.
--   Dimension  src/dimension.rs: Types, Matcher (DimensionMatcher: new is new_matcher, lookup is
--              lookup_value), Csv (rows_from_csv, split_csv_line).
--   Error      src/error.rs: the errors of the pipeline and their texts.
--   Evaluator  src/evaluator.rs: compile, to the expressions of Polars.
--   Http       src/http.rs: Prefix (validate_pipeline_prefix), Secret (constant_time_eq,
--              require_bearer_token), Decode (urldecode), Routing (route_key, match_key,
--              build_routing), Events (post_s3_events), Health (health), Validate
--              (post_config_validate, error_to_json).
--   Job        src/job.rs: Outcome holds the result types, World the buckets, the database, the
--              cancel flag and the progress of a run, Task the steps that may end it, Sources what is
--              gathered first, Work the blocking task of a mapping, Mappings the loop over the mappings
--              with upload_partitions_async, Publish the end, Execute the function execute_job.
--   JsonSource src/json_source.rs: compile_path, resolve, Builder, parse_records, read_json_source.
--   Manifest   src/manifest.rs: Files and Versions hold the pure functions, Bucket read_current,
--              read_version and publish, Vacuum the function vacuum.
--   Pipeline   src/pipeline.rs: Ingest (validate_csv_headers to ingest_many), Segment (encode_segment,
--              segment_value), Partitions (dedup_rows, produce_partitions, upload_partitions).
--   Polars     the library that these call: expressions, frames and columns as a record of types and
--              operations, without laws.
--   Queue      src/queue.rs: Store is the part of Redis that is used, World the state of a worker's
--              task and its requests, Keys and Message the names and messages, Commands the requests
--              (enqueue, try_lock, release_lock, renew_lock, defer), Finish finish_job, Claim
--              handle_claimed, Locks sequences of lock requests of several workers, on one pipeline
--              and (Mutex) on several, Timers the rounds of the mover and of the debounce scheduler with
--              debounce_event, Sweep the function sweep_orphaned_live_hashes, Heartbeat the ticks of the heartbeat of handle_claimed,
--              Progress the task of RedisProgress, Loops ensure_conn and a pass of the mover's loop.
--   StartUp    src/lib.rs: require_env_vars, env_parse.
--   Common     texts as lists of bytes, maps, integers, results, and list functions.
--   Examples   the theorems at concrete data.
--
-- State and failures. A procedure is a function from a world to a result and a world. The world holds
-- the fate of the requests to come: carried out and answered, refused, or carried out with the answer
-- lost. A pipeline or a script of Redis is one request. Past the end of the list every request
-- succeeds; `calm` is a world with no failures left. The objects of a bucket have the same fates. The
-- clock stands still within a procedure, but for the run of a job, which is the argument `run` of
-- handle_claimed: it stands for execute_job with the heartbeat, and for all that other workers do
-- meanwhile. Other workers also act between the requests in Queue/Locks. execute_job itself is modelled
-- over the two buckets and the database (Job/World): the list `cancel` holds what the flag of the
-- heartbeat is each time that it is read, the list `panics` whether a library panics in a task.
--
-- Bounds and fuel. Decimal digits are made with fuel n + 1 for the number n, base-36 digits with fuel
-- n + 1, which is more than the number of digits; repeated stripping of a prefix has the length of
-- the text as fuel, and each step shortens it. All other recursion is structural. Casts to 32 bits
-- keep their wrap-around (as_i32), a counter that does not fit `u32` counts as the first attempt.
-- Times and counters are natural numbers, priorities and scores integers without a bound; the scores
-- of Redis are doubles in the program.
--
-- Parameters. serde_json (External, Codec, Parsers, Json, the parser of configs), Polars, `f64` and its
-- operations (Floats), the order of trimming of a stream, time formats, the ISO form of dates, `{:?}` of
-- strings, case folding, the UTF-8 check and trimming (Unicode), from_utf8_lossy, the order in which the
-- map of the tables is walked, and the run.
--
-- Not modelled: the endless loops around the rounds, the reading and reclaiming of entries from the
-- stream, ensure_group, the rest of start-up (src/lib.rs, src/main.rs), the router, logging, and the
-- test data generator. The heartbeat is not run beside a run of handle_claimed, but beside the
-- requests of other workers (Queue/Heartbeat/Holds). What Polars computes is left to the
-- library: the model says which of its operations are called on what, and what is made of the answers.
pub mod Assertions
pub mod Ast
pub mod Common
pub mod Config
pub mod Db
pub mod Dimension
pub mod Error
pub mod Evaluator
pub mod Http
pub mod Job
pub mod JsonSource
pub mod Manifest
pub mod Pipeline
pub mod Polars
pub mod Queue
mod Examples
pub mod StartUp
