-- ===== src/Ledger/Diagram.antt =====
-- The transitions of `status` that the statements make (README.md, "Valid transitions are").
use test_defense_validation.Base.{ℕ, ◌≡◌, String, some, arith}
use test_defense_validation.Ledger.Row.{Row, Status, queued, running, completed, failed, canceled}
use test_defense_validation.Ledger.Steps.{
  Limits, WorkerCall, beats, ServiceCall, leases, run_worker, run_service, Step, by_worker,
  by_service,
}

infix 40 ◌⟶◌
pub data ◌⟶◌ : Status → Status → Type 0 where
  stay : {s : Status} → s ⟶ s
  lease : queued ⟶ running
  drop : queued ⟶ canceled
  complete : running ⟶ completed
  break : running ⟶ failed
  stop : running ⟶ canceled
  requeue : running ⟶ queued

ruleset edges = (stay, lease, drop, complete, break, stop, requeue)

module _ (l : Limits) (now : ℕ) (r q : Row) where
  worker-⟶ :
      (id w t : String) (c : WorkerCall)
      → run_worker l now id w t c r ≡ some q
      → r.status ⟶ q.status
  unfolding run_worker
  worker-⟶ id w t (beats d) h = grind (arith, edges)
  worker-⟶ id w t _ h = grind (arith, edges)

  service-⟶ : (c : ServiceCall) → run_service l now c r ≡ some q → r.status ⟶ q.status
  unfolding run_service
  service-⟶ (leases w t d) h = grind (arith, edges)
  service-⟶ _ h = grind (arith, edges)

-- Every statement moves the status of a row along the diagram.
pub Step-⟶ : (l : Limits) {r q : Row} → Step l r q → r.status ⟶ q.status
Step-⟶ l (by_worker now id w t c p h) = worker-⟶ l now _ _ id w t c h
Step-⟶ l (by_service now c h) = service-⟶ l now _ _ c h
