-- ===== src/Dimension.antt =====
-- Lookup tables that expressions refer to: src/dimension.rs and the types it takes of src/config.rs.
pub mod Types
pub mod Csv
pub mod Matcher
