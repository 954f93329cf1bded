-- ===== src/Ledger/Invariant.antt =====
-- What holds of a row of the ledger between two statements (api/lifecycle_store.go).
mod Keep
mod Results
mod Notices
pub use Keep.*
pub use Results.*
pub use Notices.*
