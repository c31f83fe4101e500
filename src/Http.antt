-- ===== src/Http.antt =====
-- src/http.rs: the HTTP routes of the worker.
pub mod Prefix
pub mod Secret
pub mod Decode
pub mod Routing
pub mod Events
pub mod Health
pub mod Validate
