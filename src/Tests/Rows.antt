-- ===== src/Tests/Rows.antt =====
-- A run through the ledger at concrete times (api/lifecycle_store.go).
use test_defense_validation.Base.{Option, some, ◌≡◌, refl, arith, true, is_some}
use test_defense_validation.Ledger.Row.{Row, Submission, coalesce}
use test_defense_validation.Ledger.Tables.{new_row}
use test_defense_validation.Ledger.Steps.{
  Limits, Step, Steps, here, next, by_worker, by_service, leases, stages, marks_pending, completes,
  claims_callback, delivers, run_worker, run_service,
}

abbrev pub limits : Limits
limits = record {
  max_attempts = 3;
  max_verification_attempts = 8;
  some_attempt = omega arith;
  some_verification = omega arith;
}

abbrev pub submission : Submission
submission = record {
  run_id = "run-1";
  result_id = "result-1";
  request_id = "request-1";
  correlation_id = "correlation-1";
  request = "{}";
  request_digest = "digest";
  created_at = 100;
  callback_url = some "https://example.org/callback";
  callback_workflow_id = some "workflow";
  callback_signal = some "signal";
  callback_event_id = some "event";
}

abbrev pub queued_row : Row
queued_row = new_row submission

-- The row after a statement that is made.
abbrev after : Option Row → Row
after o = coalesce o queued_row

abbrev pub leased_row : Row
leased_row = after (run_service limits 110 (leases "worker-1" "token-1" 60) queued_row)

abbrev pub staged_row : Row
staged_row =
    after (run_worker limits 120 "run-1" "worker-1" "token-1" (stages "payload") leased_row)

abbrev pub pending_row : Row
pending_row = after (run_worker limits 121 "run-1" "worker-1" "token-1" marks_pending staged_row)

abbrev pub completed_row : Row
completed_row = after (
    run_worker limits 130 "run-1" "worker-1" "token-1" (completes "success" "payload" "{}")
      pending_row)

abbrev pub claimed_row : Row
claimed_row = after (run_service limits 140 (claims_callback "callback-1" 30) completed_row)

abbrev pub delivered_row : Row
delivered_row = after (run_service limits 145 (delivers "run-1" "callback-1") claimed_row)

pub lease_step :
    run_service limits 110 (leases "worker-1" "token-1" 60) queued_row ≡ some leased_row
unfolding run_service new_row
lease_step = refl

pub stage_step :
    run_worker limits 120 "run-1" "worker-1" "token-1" (stages "payload") leased_row
    ≡ some staged_row
unfolding run_worker run_service new_row
stage_step = refl

pub pend_step :
    run_worker limits 121 "run-1" "worker-1" "token-1" marks_pending staged_row ≡ some pending_row
unfolding run_worker run_service new_row
pend_step = refl

pub complete_step :
    run_worker limits 130 "run-1" "worker-1" "token-1"
      (completes "success" "payload" "{}")
      pending_row
    ≡ some completed_row
unfolding run_worker run_service new_row
complete_step = refl

pub claim_step :
    run_service limits 140 (claims_callback "callback-1" 30) completed_row ≡ some claimed_row
unfolding run_worker run_service new_row
claim_step = refl

pub deliver_step :
    run_service limits 145 (delivers "run-1" "callback-1") claimed_row ≡ some delivered_row
unfolding run_worker run_service new_row
deliver_step = refl

pub to_leased : Steps limits queued_row leased_row
to_leased = next here (by_service 110 (leases "worker-1" "token-1" 60) lease_step)

pub to_staged : Steps limits queued_row staged_row
to_staged =
    next to_leased (by_worker 120 "run-1" "worker-1" "token-1" (stages "payload") tt stage_step)

pub staged_response : is_some staged_row.response ≡ true
unfolding run_worker run_service new_row
staged_response = refl

pending_payload : pending_row.result_payload ≡ some "payload"
unfolding run_worker run_service new_row
pending_payload = refl

pub to_pending : Steps limits queued_row pending_row
to_pending =
    next to_staged
      (by_worker 121 "run-1" "worker-1" "token-1" marks_pending staged_response pend_step)

pub completion : Step limits pending_row completed_row
completion =
    by_worker 130 "run-1" "worker-1" "token-1" (completes "success" "payload" "{}") pending_payload
      complete_step

pub to_completed : Steps limits queued_row completed_row
to_completed = next to_pending completion

pub to_claimed : Steps limits queued_row claimed_row
to_claimed = next to_completed (by_service 140 (claims_callback "callback-1" 30) claim_step)

pub to_delivered : Steps limits queued_row delivered_row
to_delivered = next to_claimed (by_service 145 (delivers "run-1" "callback-1") deliver_step)
