-- ===== src/Ledger/Progress.antt =====
-- No live run is stuck (api/lifecycle_store.go: LeaseNext, FailExhausted, RecoverCanceled).
use test_defense_validation.Base.{ℕ, ◌≤◌, ◌≡◌, Bool, true, false, String, arith, is_some, eq_iff}
use test_defense_validation.Ledger.Row.{Row, queued, running, is_past, coalesce}
use test_defense_validation.Ledger.Invariant.{IsBounded}
use test_defense_validation.Ledger.Steps.{Limits, leases, exhausts, recovers, run_service}

-- Exactly one of three tests holds.
abbrev pub ExactlyOne : Bool → Bool → Bool → Type 0
ExactlyOne true false false = Unit
ExactlyOne false true false = Unit
ExactlyOne false false true = Unit
ExactlyOne _ _ _ = ⊥

-- A run whose worker has disappeared is given to exactly one of the next worker, the attempt limit
-- and the recovery of cancellations.
pub expired_recovered :
    (l : Limits) (now : ℕ) (w t : String) (d : ℕ) (r : Row)
    → IsBounded l r
    → r.status ≡ running
    → is_past r.lease_expires_at now ≡ true
    → r.created_at ≤ now
    → ExactlyOne
        (is_some (run_service l now (leases w t d) r))
        (is_some (run_service l now exhausts r))
        (is_some (run_service l now recovers r))
unfolding run_service
expired_recovered l now w t d r v e h c = ground (arith, eq_iff r.run_id r.run_id)

-- A queued run can be leased as soon as its retry time, if it has one, has come.
pub queued_leased :
    (l : Limits) (now : ℕ) (w t : String) (d : ℕ) (r : Row)
    → IsBounded l r
    → r.status ≡ queued
    → coalesce r.publication_retry_at r.created_at ≤ now
    → is_some (run_service l now (leases w t d) r) ≡ true
unfolding run_service
queued_leased l now w t d r v e h = ground (arith, eq_iff r.run_id r.run_id)
