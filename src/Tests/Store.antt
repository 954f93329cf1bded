-- ===== src/Tests/Store.antt =====
-- The statements on the table at a concrete table (api/lifecycle_store.go).
use test_defense_validation.Base.{none, some, ◌≡◌, ◌∷◌, false, some, [], if◌then◌else◌, true, refl}
use test_defense_validation.Ledger.Steps.{run_worker, run_service, stages}
use test_defense_validation.Ledger.Row.{Submission}
use test_defense_validation.Ledger.Tables.{
  get_by_request, IsKeyed, create_or_get, new_row, get_durable,
}
use test_defense_validation.Ledger.Lease.{lease_next}
use test_defense_validation.Ledger.Tables.Queue.{Report, lease_next_lem}
use test_defense_validation.Ledger.Update.{Table, update, changed}
use test_defense_validation.Tests.Rows.{queued_row, limits, leased_row, submission}
use test_defense_validation.Ledger.Tables.Statements.{fires}
use test_defense_validation.Ledger.Tables.Workers.{worker_statement}

-- The same request again, under another run id.
abbrev again : Submission
again = record submission { run_id = "run-2"; result_id = "result-2"; created_at = 105 }

first_creation : create_or_get submission [] ≡ some (queued_row ∷ [], queued_row, true)
unfolding create_or_get new_row
first_creation = refl

abbrev other_submission : Submission
other_submission = record submission {
  run_id = "run-3";
  request_id = "request-3";
  created_at = 104;
}

abbrev two_rows : Table
two_rows = leased_row ∷ new_row other_submission ∷ []

two_rows-IsKeyed : IsKeyed two_rows
unfolding get_by_request get_durable run_service new_row
two_rows-IsKeyed = (refl, refl, (refl, refl, tt))

worker_statement_example :
    let f = run_worker limits 120 "run-1" "worker-1" "token-1" (stages "payload") in
    ((update f two_rows).1 ≡ (if fires f (get_durable "run-1" two_rows) then 1 else 0))
    × (get_durable "run-1" (update f two_rows).0
        ≡ elim (get_durable "run-1" two_rows) [ none ↦ none | some r ↦ some (changed r (f r)) ])
    × IsKeyed (update f two_rows).0
worker_statement_example =
    worker_statement limits 120 "run-1" "worker-1" "token-1" (stages "payload") two_rows
      two_rows-IsKeyed

-- The first row's lease runs, and the second row waits.
lease_next_lem_example :
    Report limits 150
      (λ r. false)
      "worker-2"
      "token-2"
      60
      two_rows
      (lease_next 150 (λ r. false) "worker-2" "token-2" 60 3 two_rows).0
      (lease_next 150 (λ r. false) "worker-2" "token-2" 60 3 two_rows).1
lease_next_lem_example =
    lease_next_lem limits 150 (λ r. false) "worker-2" "token-2" 60 two_rows two_rows-IsKeyed

second_leased : (lease_next 150 (λ r. false) "worker-2" "token-2" 60 3 two_rows).1 ≡ some "run-3"
unfolding lease_next run_service new_row
second_leased = refl
