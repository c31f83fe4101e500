-- ===== src/Db.antt =====
-- src/db.rs: the tables that the worker's statements read and write. A statement is a function on
-- the tables; that it may fail is added where it is called (Queue/World.antt).
use karet_worker.Common.{ℕ, ◌+◌, Option, none, some, text_eq}
use karet_worker.Common.Dict.{Dict, lookup, insert}
use karet_worker.Common.Int.{ℤ, int_eq}
use karet_worker.Common.Text.{Text, bytes}

-- A row of `jobs`.
pub record JobRow : Type 0 where
  pub pipeline : Text
  pub config_version_id : Option ℤ
  pub status : Text
  pub trigger : Text
  pub enqueued_at : ℤ
  pub worker : Option Text
  pub started_at : Option ℕ
  pub attempts : ℕ
  pub completed_at : Option ℕ
  pub error : Option Text
  pub files_processed : Option ℤ
  pub partitions_written : Option ℤ
  pub rows_deduped : Option ℤ

-- Configs are kept as the text of their JSON. The keys of the two first tables are unique columns.
pub record Database : Type 0 where
  pub jobs : Dict Text JobRow
  pub config_versions : Dict ℤ Text
  pub pipelines_current : Dict Text ℤ

pub record JobOutcomeRow : Type 0 where
  pub status : Text
  pub error : Option Text
  pub files_processed : Option ℤ
  pub partitions_written : Option ℤ
  pub rows_deduped : Option ℤ

unfoldable pub current_version_for : Text → Database → Option ℤ
current_version_for pipeline db = lookup pipeline db.pipelines_current

unfoldable pub config_for_version : ℤ → Database → Option Text
config_for_version config_version_id db = lookup config_version_id db.config_versions

-- INSERT … ON CONFLICT (id) DO NOTHING
unfoldable pub insert_queued : Text → Text → Option ℤ → Text → ℤ → Database → Database
insert_queued id pipeline version trigger enqueued_at db = elim (lookup id db.jobs) [
  | some _ ↦ db
  | none ↦ record db {
    jobs =
        insert id
          (record {
            pipeline = pipeline;
            config_version_id = version;
            status = bytes "queued";
            trigger = trigger;
            enqueued_at = enqueued_at;
            worker = none;
            started_at = none;
            attempts = 0;
            completed_at = none;
            error = none;
            files_processed = none;
            partitions_written = none;
            rows_deduped = none;
          })
          db.jobs;
  }
]

-- UPDATE … WHERE id = $1: no row, no change.
unfoldable pub mark_running : ℕ → Text → Text → Database → Database
mark_running now id worker db = elim (lookup id db.jobs) [
  | none ↦ db
  | some row ↦ record db {
    jobs =
        insert id
          (record row {
            status = bytes "running";
            worker = some worker;
            started_at = some now;
            attempts = row.attempts + 1;
          })
          db.jobs;
  }
]

unfoldable pub mark_finished : ℕ → Text → JobOutcomeRow → Database → Database
mark_finished now id outcome db = elim (lookup id db.jobs) [
  | none ↦ db
  | some row ↦ record db {
    jobs =
        insert id
          (record row {
            status = outcome.status;
            completed_at = some now;
            error = outcome.error;
            files_processed = outcome.files_processed;
            partitions_written = outcome.partitions_written;
            rows_deduped = outcome.rows_deduped;
          })
          db.jobs;
  }
]
