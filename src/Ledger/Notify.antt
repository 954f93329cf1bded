-- ===== src/Ledger/Notify.antt =====
-- The outbox contract (api/lifecycle_store.go, README.md: "the same PostgreSQL transaction makes
-- one stable outbox event eligible for delivery").
use test_defense_validation.Base.{
  ℕ, ◌≡◌, ◌≢◌, ap, ◌∙◌, Bool, true, false, Option, none, some, String, arith, is_some, eq_iff, leb,
}
use test_defense_validation.Ledger.Row.{Row, Submission, CallbackState, is_future, terminal_status}
use test_defense_validation.Ledger.Outbox.{claimable}
use test_defense_validation.Ledger.Invariant.{IsNotified}
use test_defense_validation.Ledger.Terminal.{Step-submission}
use test_defense_validation.Ledger.Steps.{
  Limits, WorkerCall, beats, ServiceCall, leases, claims_callback, delivers, postpones, gives_up,
  run_worker, run_service, Step, by_worker, by_service,
}

-- What ends a run makes its callback due at the same moment.
abbrev Due : ℕ → Row → Type 0
Due at q =
    (q.completed_at ≡ some at)
    × (q.callback_next_at ≡ some at)
    × (q.callback_state ≡ some CallbackState.pending)
    × (q.callback_lease_expires_at ≡ none)

abbrev pub is_final : Option CallbackState → Bool
is_final (some CallbackState.delivered) = true
is_final (some CallbackState.configuration_failed) = true
is_final _ = false

module _ (l : Limits) (now : ℕ) (r q : Row) where
  worker-Due :
      (id w t : String) (c : WorkerCall)
      → run_worker l now id w t c r ≡ some q
      → IsNotified r
      → is_some r.callback_url ≡ true
      → terminal_status r.status ≡ false
      → terminal_status q.status ≡ true
      → Due now q
  unfolding run_worker
  worker-Due id w t (beats d) h v u a e = ground arith
  worker-Due id w t _ h v u a e = ground arith

  service-Due :
      (c : ServiceCall)
      → run_service l now c r ≡ some q
      → IsNotified r
      → is_some r.callback_url ≡ true
      → terminal_status r.status ≡ false
      → terminal_status q.status ≡ true
      → Due now q
  unfolding run_service
  service-Due (leases w t d) h v u a e = ground arith
  service-Due _ h v u a e = ground arith

Due-claimable :
    (at now : ℕ) (q : Row)
    → Due at q
    → terminal_status q.status ≡ true
    → is_some q.callback_url ≡ true
    → claimable now q ≡ leb at now
unfolding claimable
Due-claimable at now q d e u = ground arith

Step-Due :
    (l : Limits) {r q : Row}
    → Step l r q
    → IsNotified r
    → is_some r.callback_url ≡ true
    → terminal_status r.status ≡ false
    → terminal_status q.status ≡ true
    → (at : ℕ) × (Due at q)
Step-Due l (by_worker now id w t c p h) v u a e = (now, worker-Due l now _ _ id w t c h v u a e)
Step-Due l (by_service now c h) v u a e = (now, service-Due l now _ _ c h v u a e)

-- The statement that ends a run with a callback makes the callback claimable from that moment on,
-- and not before.
pub Step-claimable :
    (l : Limits) {r q : Row}
    → Step l r q
    → IsNotified r
    → is_some r.callback_url ≡ true
    → terminal_status r.status ≡ false
    → terminal_status q.status ≡ true
    → (at : ℕ) × (q.completed_at ≡ some at) × ((now : ℕ) → claimable now q ≡ leb at now)
Step-claimable l {r} {q} s v u a e =
    let (at, d) = Step-Due l s v u a e in
    (
      at,
      d.0,
      λ now.
          Due-claimable at now q d e
            (ap (λ (x : Submission). is_some x.callback_url) (Step-submission l s) ∙ u),
    )

module _ (l : Limits) (now : ℕ) (r : Row) where
  worker-final :
      (id w t : String) (c : WorkerCall)
      → IsNotified r
      → is_final r.callback_state ≡ true
      → run_worker l now id w t c r ≡ none
  unfolding run_worker
  worker-final id w t (beats d) v f = ground arith
  worker-final id w t _ v f = ground arith

  service-final :
      (c : ServiceCall)
      → IsNotified r
      → is_final r.callback_state ≡ true
      → run_service l now c r ≡ none
  unfolding run_service
  service-final (leases w t d) v f = ground arith
  service-final _ v f = ground arith

-- A run whose callback is delivered, or given up, is not changed by any statement again.
pub final_none :
    (l : Limits) (r : Row)
    → IsNotified r
    → is_final r.callback_state ≡ true
    → ((now : ℕ) (id w t : String) (c : WorkerCall) → run_worker l now id w t c r ≡ none)
      × ((now : ℕ) (c : ServiceCall) → run_service l now c r ≡ none)
final_none l r v f =
    ((λ now id w t c. worker-final l now r id w t c v f), (λ now c. service-final l now r c v f))

-- While one dispatcher's lease of a callback runs, no other claims it, and a report under another
-- token changes nothing.
pub claimed_exclusive :
    (l : Limits) (now : ℕ) (token other reason : String) (lease delay : ℕ) (r : Row)
    → IsNotified r
    → r.callback_lease_token ≡ some token
    → is_future r.callback_lease_expires_at now ≡ true
    → other ≢ token
    → (run_service l now (claims_callback other lease) r ≡ none)
      × (run_service l now (delivers r.run_id other) r ≡ none)
      × (run_service l now (postpones r.run_id other delay reason) r ≡ none)
      × (run_service l now (gives_up r.run_id other reason) r ≡ none)
unfolding run_service
claimed_exclusive l now token other reason lease delay r v e f n =
    ground (arith, eq_iff token other)
