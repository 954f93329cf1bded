-- ===== src/Tests/Callbacks.antt =====
-- The outbox at a concrete run (api/lifecycle_store.go).
use test_defense_validation.Base.{
  ◌≡◌, ℕ, some, is_some, true, false, none, refl, String, ◌≢◌, arith, eq_iff, leb,
}
use test_defense_validation.Ledger.Steps.{
  run_worker, run_service, claims_callback, delivers, postpones, gives_up,
}
use test_defense_validation.Ledger.Invariant.{IsNotified}
use test_defense_validation.Tests.Rows.{
  pending_row, completed_row, limits, submission, to_pending, completion, claimed_row, to_claimed,
}
use test_defense_validation.Ledger.Tables.{new_row}
use test_defense_validation.Ledger.Reachable.{Steps-IsValid}
use test_defense_validation.Ledger.Notify.{Step-claimable, claimed_exclusive}
use test_defense_validation.Ledger.Row.{terminal_status, is_future}
use test_defense_validation.Ledger.Outbox.{claimable}

pending_IsNotified : IsNotified pending_row
pending_IsNotified = (Steps-IsValid limits submission to_pending).2

has_callback : is_some pending_row.callback_url ≡ true
unfolding run_worker run_service new_row
has_callback = refl

not_ended : terminal_status pending_row.status ≡ false
unfolding run_worker run_service new_row
not_ended = refl

ended : terminal_status completed_row.status ≡ true
unfolding run_worker run_service new_row
ended = refl

Step-claimable_example :
    (at : ℕ) × (completed_row.completed_at ≡ some at)
    × ((now : ℕ) → claimable now completed_row ≡ leb at now)
Step-claimable_example =
    Step-claimable limits completion pending_IsNotified has_callback not_ended ended

abbrev claim_token : String
claim_token = "callback-1"

abbrev other_claim : String
other_claim = "callback-2"

other_claims : other_claim ≢ claim_token
other_claims e = ground (arith, eq_iff other_claim claim_token)

claimed_token : claimed_row.callback_lease_token ≡ some claim_token
unfolding run_worker run_service new_row
claimed_token = refl

claim_live : is_future claimed_row.callback_lease_expires_at 150 ≡ true
unfolding run_worker run_service new_row
claim_live = refl

claimed_exclusive_example :
    (run_service limits 150 (claims_callback other_claim 30) claimed_row ≡ none)
    × (run_service limits 150 (delivers claimed_row.run_id other_claim) claimed_row ≡ none)
    × (run_service limits 150 (postpones claimed_row.run_id other_claim 5 "late") claimed_row
        ≡ none)
    × (run_service limits 150 (gives_up claimed_row.run_id other_claim "late") claimed_row ≡ none)
claimed_exclusive_example =
    claimed_exclusive limits 150 claim_token other_claim "late" 30 5 claimed_row
      ((Steps-IsValid limits submission to_claimed).2) claimed_token claim_live other_claims
