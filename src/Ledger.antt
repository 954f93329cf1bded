-- ===== src/Ledger.antt =====
-- The run ledger (api/lifecycle_store.go).
pub mod Row
pub mod Update
pub mod Lease
pub mod Finish
pub mod Recovery
pub mod Outbox
pub mod Steps
pub mod Diagram
pub mod Invariant
pub mod Terminal
pub mod Fencing
pub mod Writes
pub mod Progress
pub mod Notify
pub mod Tables
pub mod Reachable
