-- ===== src/Job.antt =====
-- src/job.rs: the executor of pipeline runs.
pub mod Outcome
pub mod Work
pub mod World
pub mod Task
pub mod Keeps
pub mod Ends
pub mod Sources
pub mod Mappings
pub mod Publish
pub mod Execute
