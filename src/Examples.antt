-- ===== src/Examples.antt =====
-- Runs of the definitions on concrete data, and the theorems at them.
mod Queue
mod Locks
mod Tables
mod Requests
mod Libraries
mod Ingest
mod Runs
