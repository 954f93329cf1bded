-- ===== src/Callback.antt =====
-- Callbacks: the headers of a submission and the dispatcher of the outbox (api/callback.go).
pub mod Jitter
pub mod Headers
pub mod Dispatch
pub mod Acceptance
pub mod Retry
pub mod Outcomes
