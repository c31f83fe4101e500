-- ===== src/Queue.antt =====
-- src/queue.rs: the Redis-backed job queue.
pub mod Store
pub mod Keys
pub mod Message
pub mod World
pub mod Commands
pub mod Finish
pub mod Claim
pub mod Locks
pub mod Heartbeat
pub mod Timers
pub mod Sweep
pub mod Progress
pub mod Loops
