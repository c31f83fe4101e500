-- ===== src/Config.antt =====
-- src/config.rs: the configuration of a pipeline and its validation. The rows of a dimension and
-- their modes stand in Dimension/Types.
pub mod Types
pub mod Check
pub mod Validate
