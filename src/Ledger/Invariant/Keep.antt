-- ===== src/Ledger/Invariant/Keep.antt =====
-- A row has a lease while it runs, and an end when it is terminal (api/lifecycle_store.go).
use test_defense_validation.Base.{ℕ, ◌≡◌, String, some, arith, is_some}
use test_defense_validation.Ledger.Row.{Row, is_running, terminal_status}
use test_defense_validation.Ledger.Steps.{
  Limits, WorkerCall, beats, ServiceCall, leases, Permitted, run_worker, run_service, Step,
  by_worker, by_service,
}

-- A row has a lease exactly while it runs, and an end exactly when it is terminal.
pub record IsLeased (r : Row) : Type 0 where
  pub worker : is_some r.worker_id ≡ is_running r.status
  pub token : is_some r.lease_token ≡ is_running r.status
  pub expiry : is_some r.lease_expires_at ≡ is_running r.status
  pub ended : is_some r.completed_at ≡ terminal_status r.status

module _ (l : Limits) (now : ℕ) {r q : Row} where
  worker-IsLeased :
      (id w t : String) (c : WorkerCall)
      → Permitted c r
      → run_worker l now id w t c r ≡ some q
      → IsLeased r
      → IsLeased q
  unfolding run_worker
  worker-IsLeased id w t (beats d) p h v = ground arith
  worker-IsLeased id w t _ p h v = ground arith

  service-IsLeased : (c : ServiceCall) → run_service l now c r ≡ some q → IsLeased r → IsLeased q
  unfolding run_service
  service-IsLeased (leases w t d) h v = ground arith
  service-IsLeased _ h v = ground arith

pub Step-IsLeased : (l : Limits) {r q : Row} → Step l r q → IsLeased r → IsLeased q
Step-IsLeased l (by_worker now id w t c p h) v = worker-IsLeased l now id w t c p h v
Step-IsLeased l (by_service now c h) v = service-IsLeased l now c h v
