-- ===== src/Ledger/Recovery.antt =====
-- Statements that need no lease (api/lifecycle_store.go: FailExhausted, RecoverCanceled, Cancel).
use test_defense_validation.Base.{
  ℕ, true, false, not, ◌&&◌, ◌||◌, Option, none, some, String, str_eq, leb, if◌then◌else◌, is_some,
}
use test_defense_validation.Ledger.Row.{
  Row, failed, canceled, RunFailure, is_past, is_queued, is_running,
}
use test_defense_validation.Ledger.Finish.{notify}

abbrev pub exhausted_failure : RunFailure
exhausted_failure = record {
  code = "worker_attempts_exhausted";
  detail = "Worker lease expired and the attempt limit was reached";
  retryable = false;
}

unfoldable pub fail_exhausted : ℕ → ℕ → Row → Option Row
fail_exhausted now max_attempts r =
    if is_running r.status
      && not r.cancel_requested
      && not (is_some r.response)
      && is_past r.lease_expires_at now
      && leb max_attempts r.attempt
    then some (record r {
      status = failed;
      terminal_state = "malfunction";
      failure = some exhausted_failure;
      completed_at = some now;
      updated_at = now;
      progress_phase = "failed";
      progress_message = "Worker attempt limit reached";
      delivery = notify now r;
      worker_id = none;
      lease_token = none;
      lease_expires_at = none;
    })
    else none

unfoldable pub recover_canceled : ℕ → Row → Option Row
recover_canceled now r =
    if is_running r.status
      && r.cancel_requested
      && not r.publication_pending
      && is_past r.lease_expires_at now
    then some (record r {
      status = canceled;
      terminal_state = "canceled";
      completed_at = some now;
      updated_at = now;
      progress_phase = "canceled";
      progress_message = "Cancellation recovered after worker lease expiry";
      publication_pending = false;
      delivery = notify now r;
      worker_id = none;
      lease_token = none;
      lease_expires_at = none;
    })
    else none

unfoldable pub cancel : ℕ → String → Row → Option Row
cancel now id r =
    let at_once = is_queued r.status && not r.publication_pending in
    if str_eq r.run_id id && (is_queued r.status || is_running r.status)
    then some (record r {
      cancel_requested = true;
      status = if at_once then canceled else r.status;
      terminal_state = if at_once then "canceled" else r.terminal_state;
      completed_at = if at_once then some now else r.completed_at;
      updated_at = if is_queued r.status || is_running r.status then now else r.updated_at;
      delivery = if at_once then notify now r else r.delivery;
      progress_phase =
          if at_once
          then "canceled"
          else if r.publication_pending
          then "verifying"
          else "canceling";
      progress_message =
          if at_once
          then "Canceled before execution"
          else if r.publication_pending
          then "Verifying immutable result publication; cancellation cutoff has passed"
          else "Cancellation requested";
    })
    else none
