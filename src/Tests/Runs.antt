-- ===== src/Tests/Runs.antt =====
-- The ledger's theorems on the run of Tests/Rows (api/lifecycle_store.go).
use test_defense_validation.Base.{
  ◌≡◌, ◌≢◌, is_some, eq_iff, none, length, false, ◌≤◌, true, some, arith, refl, String,
}
use test_defense_validation.Ledger.Diagram.{◌⟶◌, Step-⟶}
use test_defense_validation.Ledger.Reachable.{IsValid, reachable-IsValid, Steps-IsValid}
use test_defense_validation.Ledger.Writes.{
  Writes, nothing_yet, worker, service, IsOrderly, staged_by, head, staged_kept,
}
use test_defense_validation.Tests.Rows.{
  claimed_row, limits, delivered_row, pending_row, completed_row, leased_row, completion,
  submission, claim_step, to_leased, pend_step, lease_step, stage_step, complete_step, deliver_step,
  queued_row,
}
use test_defense_validation.Ledger.Steps.{
  run_service, run_worker, leases, stages, exhausts, by_service, recovers, claims_callback,
  marks_pending, completes, delivers,
}
use test_defense_validation.Ledger.Tables.{new_row}
use test_defense_validation.Ledger.Row.{Row, terminal_status, is_past, is_future, coalesce, running}
use test_defense_validation.Ledger.Progress.{ExactlyOne, expired_recovered}
use test_defense_validation.Ledger.Terminal.{Step-terminal}
use test_defense_validation.Ledger.Fencing.{Without, taken_over_none}

abbrev whole_run : Writes limits queued_row delivered_row
whole_run =
    service
      (service
        (worker
          (worker
            (worker (service nothing_yet 110 (leases "worker-1" "token-1" 60) lease_step) 120
              "run-1" "worker-1" "token-1" (stages "payload") stage_step)
            121 "run-1" "worker-1" "token-1" marks_pending pend_step)
          130 "run-1" "worker-1" "token-1" (completes "success" "payload" "{}") complete_step)
        140 (claims_callback "callback-1" 30) claim_step)
      145 (delivers "run-1" "callback-1") deliver_step

orderly : IsOrderly whole_run
unfolding IsOrderly staged_by
orderly = (((tt, tt), λ e. cc), refl)

reachable-IsValid_example : IsValid limits delivered_row
reachable-IsValid_example = reachable-IsValid limits submission whole_run orderly

staged_kept_example :
    (delivered_row.result_payload ≡ head (staged_by whole_run)) × (length (staged_by whole_run) ≤ 1)
staged_kept_example = staged_kept limits submission whole_run orderly

Step-⟶_example : pending_row.status ⟶ completed_row.status
Step-⟶_example = Step-⟶ limits completion

completed_ended : terminal_status completed_row.status ≡ true
unfolding run_worker run_service new_row
completed_ended = refl

Step-terminal_example : record claimed_row { delivery = completed_row.delivery } ≡ completed_row
Step-terminal_example =
    Step-terminal limits (by_service 140 (claims_callback "callback-1" 30) claim_step)
      completed_ended

-- The lease of the run runs out at 170; another worker takes it over at 180.
abbrev retaken_row : Row
retaken_row =
    coalesce (run_service limits 180 (leases "worker-2" "token-2" 60) leased_row) leased_row

retake_step : run_service limits 180 (leases "worker-2" "token-2" 60) leased_row ≡ some retaken_row
unfolding run_service new_row
retake_step = refl

abbrev pub old_token : String
old_token = "token-1"

abbrev pub new_token : String
new_token = "token-2"

pub other_token : new_token ≢ old_token
other_token e = ground (arith, eq_iff new_token old_token)

taken_over_none_example :
    run_worker limits 185 "run-1" "worker-1" "token-1" (stages "stale") retaken_row ≡ none
taken_over_none_example =
    taken_over_none limits 180 185 "run-1" "worker-1" "worker-2" "token-1" "token-2" 60
      (stages "stale") leased_row retaken_row retaken_row other_token retake_step Without.here

run_out : is_future leased_row.lease_expires_at 171 ≡ false
unfolding run_service new_row
run_out = refl

leased_running : leased_row.status ≡ running
unfolding run_service new_row
leased_running = refl

lease_past : is_past leased_row.lease_expires_at 180 ≡ true
unfolding run_service new_row
lease_past = refl

created_before : leased_row.created_at ≤ 180
unfolding run_service new_row
created_before = omega arith

expired_recovered_example :
    ExactlyOne
      (is_some (run_service limits 180 (leases "worker-2" "token-2" 60) leased_row))
      (is_some (run_service limits 180 exhausts leased_row))
      (is_some (run_service limits 180 recovers leased_row))
expired_recovered_example =
    expired_recovered limits 180 "worker-2" "token-2" 60 leased_row
      ((Steps-IsValid limits submission to_leased).1) leased_running lease_past created_before
