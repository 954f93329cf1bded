-- ===== src/Payload.antt =====
-- The enforcement payload of a resolved rule (api/janus_payload.go).
pub mod Rules
pub mod Meaning
pub mod Unions
pub mod Positions
pub mod Uniform
pub mod Collapse
pub mod Widening
pub mod Action
pub mod Assembly
pub mod Carried
