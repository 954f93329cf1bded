-- ===== src/Ledger/Invariant/Results.antt =====
-- Results, publication and attempts of a row (api/lifecycle_store.go).
use test_defense_validation.Base.{none, ℕ, ◌≤◌, ◌<◌, ◌≡◌, true, false, String, some, arith, is_some}
use test_defense_validation.Ledger.Row.{Row, queued, running, completed, terminal_status}
use test_defense_validation.Ledger.Steps.{
  Limits, WorkerCall, beats, ServiceCall, leases, Permitted, run_worker, run_service, Step,
  by_worker, by_service,
}

-- What is known of the result, the publication, cancellation and the attempts.
pub record IsBounded (l : Limits) (r : Row) : Type 0 where
  pub staged : is_some r.result_payload ≡ true → is_some r.response ≡ true
  pub pending : r.publication_pending ≡ true → is_some r.response ≡ true
  pub live_payload :
      terminal_status r.status ≡ false → is_some r.response ≡ true → is_some r.result_payload ≡ true
  pub completed_published :
      r.status ≡ completed
      → (is_some r.result_payload ≡ true)
        × (is_some r.completion ≡ true)
        × (r.publication_pending ≡ false)
  pub queued_cancel : r.status ≡ queued → r.cancel_requested ≡ true → r.publication_pending ≡ true
  pub queued_fresh : r.status ≡ queued → r.publication_pending ≡ false → r.attempt ≡ 0
  pub running_due : r.status ≡ running → r.publication_retry_at ≡ none
  pub attempts : is_some r.response ≡ false → r.attempt ≤ l.max_attempts
  pub verifications : r.verification_attempt ≤ l.max_verification_attempts
  pub live_verifications :
      terminal_status r.status ≡ false → r.verification_attempt < l.max_verification_attempts

module _ (l : Limits) (now : ℕ) {r q : Row} where
  worker-IsBounded :
      (id w t : String) (c : WorkerCall)
      → Permitted c r
      → run_worker l now id w t c r ≡ some q
      → IsBounded l r
      → IsBounded l q
  unfolding run_worker
  worker-IsBounded id w t (beats d) p h v = ground arith
  worker-IsBounded id w t _ p h v = ground arith

  service-IsBounded :
      (c : ServiceCall) → run_service l now c r ≡ some q → IsBounded l r → IsBounded l q
  unfolding run_service
  service-IsBounded (leases w t d) h v = ground arith
  service-IsBounded _ h v = ground arith

pub Step-IsBounded : (l : Limits) {r q : Row} → Step l r q → IsBounded l r → IsBounded l q
Step-IsBounded l (by_worker now id w t c p h) v = worker-IsBounded l now id w t c p h v
Step-IsBounded l (by_service now c h) v = service-IsBounded l now c h v
