-- ===== src/Service.antt =====
-- The HTTP handlers of the run lifecycle (api/lifecycle.go), and the validation of a request
-- (api/main.go).
pub mod Submit
pub mod Validate
pub mod Admission
pub mod Items
pub mod Routes
pub mod Addresses
pub mod Reached
pub mod Idempotence
pub mod Answers
