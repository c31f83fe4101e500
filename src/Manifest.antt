-- ===== src/Manifest.antt =====
-- src/manifest.rs: the manifests of a table and the point at which a version is published.
pub mod Files
pub mod Versions
pub mod Bucket
pub mod Vacuum
