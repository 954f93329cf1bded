-- ===== src/Worker.antt =====
-- The run worker (api/worker.go): a program of calls, its protocol and its runs on the ledger.
pub mod Program
pub mod Execute
pub mod Protocol
pub mod Order
pub mod Interleaving
pub mod Backoff
