-- ===== src/Pipeline.antt =====
-- src/pipeline.rs: reading source files into frames and writing frames as partitions.
pub mod Ingest
pub mod Segment
pub mod Partitions
use karet_worker.Common.{Option, List}
use karet_worker.Common.Float.{Floats}
use karet_worker.Common.Int.{ℤ}
use karet_worker.Common.Text.{Text}
use karet_worker.Dimension.Types.{Unicode}
use karet_worker.JsonSource.{Json}
use karet_worker.Polars.{Polars}

-- The libraries that the pipeline calls: floats, serde_json, Polars, Unicode, `{:?}` of strings, and
-- the ISO form of the date that lies a number of days after 1970-01-01.
pub record Libraries (F : Type 0) : Type 1 where
  pub floats : Floats F
  pub json : Json F
  pub polars : Polars F
  pub unicode : Unicode
  pub debug : List Text → Text
  pub iso_date : ℤ → Option Text
