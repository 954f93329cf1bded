-- ===== src/Resolve.antt =====
-- From a run's request to its result: the resolution of the rule (api/lifecycle.go, api/result.go,
-- api/executor_upstream.go, api/resolve_inline.go, api/executor_locator.go, api/enforcement.go).
pub mod Report
pub mod Action
pub mod Request
pub mod Upstream
pub mod Verified
pub mod Locator
pub mod Rows
pub mod CheckRow
pub mod Locate
pub mod Pinned
pub mod Lineage
pub mod Located
pub mod Admitted
pub mod Durable
pub mod Published
pub mod HandedOff
