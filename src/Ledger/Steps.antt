-- ===== src/Ledger/Steps.antt =====
-- Every statement that changes a row, as one step of it (api/lifecycle_store.go). The limits are
-- maxAttempts and maxVerificationAttempts of RunWorker, which are positive.
use test_defense_validation.Base.{
  ℕ, ◌<◌, ◌≡◌, true, Option, some, none, String, is_some, if◌then◌else◌,
}
use test_defense_validation.Ledger.Row.{Row, RunFailure}
use test_defense_validation.Ledger.Lease.{leasable, claim, heartbeat, update_progress}
use test_defense_validation.Ledger.Finish.{
  stage_outcome, complete_published, fail, fail_outcome, mark_canceled, mark_publication_pending,
  retry_verification, fail_publication_conflict,
}
use test_defense_validation.Ledger.Recovery.{fail_exhausted, recover_canceled, cancel}
use test_defense_validation.Ledger.Outbox.{
  claimable, claim_callback, callback_succeeded, callback_failed, callback_configuration_failed,
}

pub record Limits : Type 0 where
  pub max_attempts : ℕ
  pub max_verification_attempts : ℕ
  pub some_attempt : 0 < max_attempts
  pub some_verification : 0 < max_verification_attempts

-- The statements of a worker that holds the row's lease.
pub data WorkerCall : Type 0 where
  beats : ℕ → WorkerCall
  reports : String → String → WorkerCall
  stages : String → WorkerCall
  completes : String → String → String → WorkerCall
  fails : RunFailure → WorkerCall
  fails_outcome : String → RunFailure → WorkerCall
  cancels_run : WorkerCall
  marks_pending : WorkerCall
  retries : ℕ → RunFailure → WorkerCall
  conflicts : RunFailure → WorkerCall

-- The statements of LeaseNext, of the recovery, of a client's cancellation and of the dispatcher.
pub data ServiceCall : Type 0 where
  leases : String → String → ℕ → ServiceCall
  exhausts : ServiceCall
  recovers : ServiceCall
  cancels : String → ServiceCall
  claims_callback : String → ℕ → ServiceCall
  delivers : String → String → ServiceCall
  postpones : String → String → ℕ → String → ServiceCall
  gives_up : String → String → String → ServiceCall

module _ (l : Limits) (now : ℕ) where
  unfoldable pub run_worker : String → String → String → WorkerCall → Row → Option Row
  unfolding heartbeat update_progress stage_outcome complete_published fail fail_outcome
      mark_canceled mark_publication_pending retry_verification fail_publication_conflict
  run_worker id w t (beats lease) r = heartbeat now id w t lease r
  run_worker id w t (reports phase message) r = update_progress now id w t phase message r
  run_worker id w t (stages payload) r = stage_outcome now id w t payload r
  run_worker id w t (completes terminal payload completion) r =
      complete_published now id w t terminal payload completion r
  run_worker id w t (fails f) r = fail now id w t f r
  run_worker id w t (fails_outcome result f) r = fail_outcome now id w t result f r
  run_worker id w t cancels_run r = mark_canceled now id w t r
  run_worker id w t marks_pending r = mark_publication_pending now id w t r
  run_worker id w t (retries delay f) r =
      retry_verification now id w t l.max_verification_attempts delay f r
  run_worker id w t (conflicts f) r = fail_publication_conflict now id w t f r

  -- LeaseNext and ClaimNextCallback change only a row that their SELECT found.
  unfoldable pub run_service : ServiceCall → Row → Option Row
  unfolding leasable claim fail_exhausted recover_canceled cancel claimable claim_callback
      callback_succeeded callback_failed callback_configuration_failed
  run_service (leases w t lease) r =
      if leasable now l.max_attempts r then claim now w t lease r.run_id r else none
  run_service exhausts r = fail_exhausted now l.max_attempts r
  run_service recovers r = recover_canceled now r
  run_service (cancels id) r = cancel now id r
  run_service (claims_callback t lease) r =
      if claimable now r then claim_callback now t lease r.run_id r else none
  run_service (delivers id t) r = callback_succeeded now id t r
  run_service (postpones id t delay reason) r = callback_failed now id t delay reason r
  run_service (gives_up id t reason) r = callback_configuration_failed now id t reason r

-- Two statements follow others of the same worker in executeOne: MarkPublicationPending on a row
-- with a result, and CompletePublished with the bytes that are staged.
abbrev pub Permitted : WorkerCall → Row → Type 0
Permitted marks_pending r = is_some r.response ≡ true
Permitted (completes terminal payload completion) r = r.result_payload ≡ some payload
Permitted _ r = Unit

module _ (l : Limits) where
  pub data Step (r q : Row) : Type 0 where
    by_worker :
        (now : ℕ) (id w t : String) (c : WorkerCall)
        → Permitted c r
        → run_worker l now id w t c r ≡ some q
        → Step r q
    by_service : (now : ℕ) (c : ServiceCall) → run_service l now c r ≡ some q → Step r q

  -- What any sequence of statements makes of a row.
  pub data Steps (r : Row) : Row → Type 0 where
    here : Steps r r
    next : {p q : Row} → Steps r p → Step p q → Steps r q

  pub Steps-keep {ℓ} :
      (P : Row → Type ℓ)
      → ((p q : Row) → Step p q → P p → P q)
      → {r q : Row} → P r
      → Steps r q
      → P q
  Steps-keep P keep v here = v
  Steps-keep P keep v (next {p = p} {q = q} s st) = keep p q st (Steps-keep P keep v s)
