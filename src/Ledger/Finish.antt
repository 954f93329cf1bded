-- ===== src/Ledger/Finish.antt =====
-- Statements by which a worker stages, publishes and ends a run (api/lifecycle_store.go:
-- StageOutcome to MarkCanceled, MarkPublicationPending, RetryVerification, FailPublicationConflict).
use test_defense_validation.Base.{
  ℕ, ◌+◌, true, false, not, ◌&&◌, Option, none, some, String, leb, if◌then◌else◌, is_some,
}
use test_defense_validation.Ledger.Row.{
  Row, Delivery, queued, completed, failed, canceled, CallbackState, RunFailure, is_future,
}
use test_defense_validation.Ledger.Lease.{holds, owns}

-- `callback_state=CASE WHEN callback_url IS NULL THEN callback_state ELSE 'pending' END`, and the
-- same for callback_next_at.
abbrev pub notify : ℕ → Row → Delivery
notify now r =
    if is_some r.callback_url
    then record (r.delivery) {
      callback_state = some CallbackState.pending;
      callback_next_at = some now;
    }
    else r.delivery

unfoldable pub stage_outcome : ℕ → String → String → String → String → Row → Option Row
stage_outcome now id worker token payload r =
    if holds id worker token r
      && not r.cancel_requested
      && is_future r.lease_expires_at now
      && not (is_some r.response)
    then some (record r {
      response = some payload;
      result_payload = some payload;
      updated_at = now;
      progress_phase = "publishing";
      progress_message = "Publishing immutable result";
    })
    else none

unfoldable pub complete_published :
    ℕ → String → String → String → String → String → String → Row → Option Row
complete_published now id worker token terminal payload completion r =
    if owns now id worker token r
    then some (record r {
      status = completed;
      terminal_state = terminal;
      response = some payload;
      result_payload = some payload;
      completion = some completion;
      completed_at = some now;
      updated_at = now;
      progress_phase = "finished";
      progress_message = "Defense validation completed";
      publication_pending = false;
      publication_retry_at = none;
      delivery = notify now r;
      worker_id = none;
      lease_token = none;
      lease_expires_at = none;
    })
    else none

unfoldable pub fail : ℕ → String → String → String → RunFailure → Row → Option Row
fail now id worker token f r =
    if owns now id worker token r
    then some (record r {
      status = failed;
      terminal_state = "malfunction";
      failure = some f;
      completed_at = some now;
      updated_at = now;
      progress_phase = "failed";
      progress_message = f.detail;
      delivery = notify now r;
      worker_id = none;
      lease_token = none;
      lease_expires_at = none;
    })
    else none

unfoldable pub fail_outcome : ℕ → String → String → String → String → RunFailure → Row → Option Row
fail_outcome now id worker token result f r =
    if holds id worker token r && not r.cancel_requested && is_future r.lease_expires_at now
    then some (record r {
      status = failed;
      terminal_state = "malfunction";
      response = some result;
      failure = some f;
      completed_at = some now;
      updated_at = now;
      progress_phase = "failed";
      progress_message = f.detail;
      delivery = notify now r;
      worker_id = none;
      lease_token = none;
      lease_expires_at = none;
    })
    else none

unfoldable pub mark_canceled : ℕ → String → String → String → Row → Option Row
mark_canceled now id worker token r =
    if holds id worker token r && r.cancel_requested && not r.publication_pending
    then some (record r {
      status = canceled;
      terminal_state = "canceled";
      completed_at = some now;
      updated_at = now;
      progress_phase = "canceled";
      progress_message = "Cancellation completed";
      publication_pending = false;
      delivery = notify now r;
      worker_id = none;
      lease_token = none;
      lease_expires_at = none;
    })
    else none

unfoldable pub mark_publication_pending : ℕ → String → String → String → Row → Option Row
mark_publication_pending now id worker token r =
    if holds id worker token r
      && not r.cancel_requested
      && not r.publication_pending
      && is_future r.lease_expires_at now
    then some (record r {
      publication_pending = true;
      publication_retry_at = none;
      updated_at = now;
      progress_phase = "publishing";
      progress_message = "Publishing immutable result";
    })
    else none

unfoldable pub retry_verification :
    ℕ → String → String → String → ℕ → ℕ → RunFailure → Row → Option Row
retry_verification now id worker token max_attempts delay f r =
    let last = leb max_attempts (r.verification_attempt + 1) in
    if holds id worker token r && r.publication_pending && is_future r.lease_expires_at now
    then some (record r {
      verification_attempt = r.verification_attempt + 1;
      status = if last then failed else queued;
      terminal_state = if last then "malfunction" else "";
      failure = if last then some f else none;
      completed_at = if last then some now else none;
      updated_at = now;
      progress_phase = if last then "failed" else "verifying";
      progress_message =
          if last then f.detail else "Waiting to retry immutable result verification";
      publication_pending = not last;
      publication_retry_at = if last then none else some (now + delay);
      delivery = if last then notify now r else r.delivery;
      worker_id = none;
      lease_token = none;
      lease_expires_at = none;
    })
    else none

unfoldable pub fail_publication_conflict :
    ℕ → String → String → String → RunFailure → Row → Option Row
fail_publication_conflict now id worker token f r =
    if owns now id worker token r
    then some (record r {
      status = failed;
      terminal_state = "malfunction";
      failure = some f;
      completed_at = some now;
      updated_at = now;
      progress_phase = "failed";
      progress_message = f.detail;
      publication_pending = false;
      delivery = notify now r;
      worker_id = none;
      lease_token = none;
      lease_expires_at = none;
    })
    else none
