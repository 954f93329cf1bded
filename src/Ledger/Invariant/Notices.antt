-- ===== src/Ledger/Invariant/Notices.antt =====
-- The outbox columns of a row (api/lifecycle_store.go).
use test_defense_validation.Base.{
  ℕ, ◌≡◌, Bool, true, false, String, Option, none, some, arith, is_some,
}
use test_defense_validation.Ledger.Row.{Row, CallbackState, terminal_status}
use test_defense_validation.Ledger.Steps.{
  Limits, WorkerCall, beats, ServiceCall, leases, Permitted, run_worker, run_service, Step,
  by_worker, by_service,
}
use test_defense_validation.Ledger.Outbox.{is_delivering}

abbrev pub is_settled : Option CallbackState → Bool
is_settled none = false
is_settled (some CallbackState.waiting) = false
is_settled _ = true

-- A callback becomes deliverable with the end of its run, and not before.
pub record IsNotified (r : Row) : Type 0 where
  pub absent : is_some r.callback_url ≡ false → r.callback_state ≡ none
  pub waiting :
      is_some r.callback_url ≡ true
      → terminal_status r.status ≡ false
      → r.callback_state ≡ some CallbackState.waiting
  pub settled :
      is_some r.callback_url ≡ true
      → terminal_status r.status ≡ true
      → is_settled r.callback_state ≡ true
  pub leased : is_some r.callback_lease_token ≡ is_delivering r.callback_state
  pub expiry : is_some r.callback_lease_expires_at ≡ is_delivering r.callback_state
  pub scheduled : is_some r.callback_url ≡ true → is_some r.callback_next_at ≡ true

module _ (l : Limits) (now : ℕ) {r q : Row} where
  worker-IsNotified :
      (id w t : String) (c : WorkerCall)
      → Permitted c r
      → run_worker l now id w t c r ≡ some q
      → IsNotified r
      → IsNotified q
  unfolding run_worker
  worker-IsNotified id w t (beats d) p h v = ground arith
  worker-IsNotified id w t _ p h v = ground arith

  service-IsNotified :
      (c : ServiceCall) → run_service l now c r ≡ some q → IsNotified r → IsNotified q
  unfolding run_service
  service-IsNotified (leases w t d) h v = ground arith
  service-IsNotified _ h v = ground arith

pub Step-IsNotified : (l : Limits) {r q : Row} → Step l r q → IsNotified r → IsNotified q
Step-IsNotified l (by_worker now id w t c p h) v = worker-IsNotified l now id w t c p h v
Step-IsNotified l (by_service now c h) v = service-IsNotified l now c h v
