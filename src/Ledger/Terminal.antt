-- ===== src/Ledger/Terminal.antt =====
-- What the statements leave alone: ended runs, submissions, staged results
-- (api/lifecycle_store.go, README.md: "Terminal states are immutable").
use test_defense_validation.Base.{◌∙◌, ℕ, ◌≡◌, true, String, some, arith}
use test_defense_validation.Ledger.Row.{Row, terminal_status}
use test_defense_validation.Ledger.Invariant.{IsBounded, Step-IsBounded}
use test_defense_validation.Ledger.Steps.{
  Limits, WorkerCall, beats, ServiceCall, leases, Permitted, run_worker, run_service, Step, Steps,
  Steps-keep, by_worker, by_service,
}

module _ (l : Limits) (now : ℕ) (r q : Row) where
  worker-terminal :
      (id w t : String) (c : WorkerCall)
      → run_worker l now id w t c r ≡ some q
      → terminal_status r.status ≡ true
      → record q { delivery = r.delivery } ≡ r
  unfolding run_worker
  worker-terminal id w t (beats d) h e = ground arith
  worker-terminal id w t _ h e = ground arith

  service-terminal :
      (c : ServiceCall)
      → run_service l now c r ≡ some q
      → terminal_status r.status ≡ true
      → record q { delivery = r.delivery } ≡ r
  unfolding run_service
  service-terminal (leases w t d) h e = ground arith
  service-terminal _ h e = ground arith

  worker-submission :
      (id w t : String) (c : WorkerCall)
      → run_worker l now id w t c r ≡ some q
      → q.submission ≡ r.submission
  unfolding run_worker
  worker-submission id w t (beats d) h = ground arith
  worker-submission id w t _ h = ground arith

  service-submission :
      (c : ServiceCall) → run_service l now c r ≡ some q → q.submission ≡ r.submission
  unfolding run_service
  service-submission (leases w t d) h = ground arith
  service-submission _ h = ground arith

  worker-payload :
      (id w t : String) (c : WorkerCall)
      → Permitted c r
      → run_worker l now id w t c r ≡ some q
      → IsBounded l r
      → (p : String) → r.result_payload ≡ some p
      → q.result_payload ≡ some p
  unfolding run_worker
  worker-payload id w t (beats d) m h v p e = ground arith
  worker-payload id w t _ m h v p e = ground arith

  service-payload :
      (c : ServiceCall) → run_service l now c r ≡ some q → q.result_payload ≡ r.result_payload
  unfolding run_service
  service-payload (leases w t d) h = ground arith
  service-payload _ h = ground arith

-- A statement on an ended run changes outbox columns at most: its status, its result, its failure
-- and all else stay.
pub Step-terminal :
    (l : Limits) {r q : Row}
    → Step l r q
    → terminal_status r.status ≡ true
    → record q { delivery = r.delivery } ≡ r
Step-terminal l (by_worker now id w t c p h) e = worker-terminal l now _ _ id w t c h e
Step-terminal l (by_service now c h) e = service-terminal l now _ _ c h e

-- No statement changes what was submitted.
pub Step-submission : (l : Limits) {r q : Row} → Step l r q → q.submission ≡ r.submission
Step-submission l (by_worker now id w t c p h) = worker-submission l now _ _ id w t c h
Step-submission l (by_service now c h) = service-submission l now _ _ c h

Step-payload :
    (l : Limits) (p : String) {r q : Row}
    → Step l r q
    → IsBounded l r × (r.result_payload ≡ some p)
    → IsBounded l q × (q.result_payload ≡ some p)
Step-payload l p (by_worker now id w t c m h) v = (
  Step-IsBounded l (by_worker now id w t c m h) v.0,
  worker-payload l now _ _ id w t c m h v.0 p v.1,
)
Step-payload l p (by_service now c h) v =
    (Step-IsBounded l (by_service now c h) v.0, service-payload l now _ _ c h ∙ v.1)

-- Once a result is staged, permitted statements keep exactly its bytes.
pub Steps-payload :
    (l : Limits) {r q : Row} (p : String)
    → IsBounded l r
    → r.result_payload ≡ some p
    → Steps l r q
    → q.result_payload ≡ some p
Steps-payload l p v e s =
    (Steps-keep l (λ x. IsBounded l x × (x.result_payload ≡ some p)) (λ x y st. Step-payload l p st)
      (v, e) s).1
