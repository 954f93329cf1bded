-- ===== src/Service/Items.antt =====
-- Status, result and cancellation of a run (api/lifecycle.go: handleRunStatus, handleRunResult,
-- handleRunCancel, publicRunStatus; GetStatus of api/lifecycle_store.go).
use test_defense_validation.Base.{
  ℕ, Bool, true, false, not, ◌&&◌, Option, none, some, String, str_eq, if◌then◌else◌, is_some,
}
use test_defense_validation.Outcome.{Codec, Completion}
use test_defense_validation.Ledger.Row.{Row, Status, completed, RunFailure, terminal_status}
use test_defense_validation.Ledger.Update.{Table, update}
use test_defense_validation.Ledger.Recovery.{cancel}
use test_defense_validation.Ledger.Tables.{get_durable}
use test_defense_validation.Service.Submit.{LifecycleError, error}
use test_defense_validation.Worker.Execute.{claimed}

-- What is shown of a run; texts of JSON are texts.
pub record RunStatus : Type 0 where
  pub request_id : String
  pub correlation_id : String
  pub run_id : String
  pub status : Status
  pub terminal_state : Option String
  pub result_id : Option String
  pub created_at : ℕ
  pub started_at : Option ℕ
  pub updated_at : ℕ
  pub completed_at : Option ℕ
  pub progress_phase : String
  pub progress_message : String
  pub failure : Option RunFailure
  pub completion : Option Completion

abbrev pub is_completed : Status → Bool
is_completed completed = true
is_completed _ = false

abbrev pub status_of : Row → Option Completion → RunStatus
status_of r completion = record {
  request_id = r.request_id;
  correlation_id = r.correlation_id;
  run_id = r.run_id;
  status = r.status;
  terminal_state = if str_eq r.terminal_state "" then none else some r.terminal_state;
  result_id = if str_eq r.result_id "" then none else some r.result_id;
  created_at = r.created_at;
  started_at = r.started_at;
  updated_at = r.updated_at;
  completed_at = r.completed_at;
  progress_phase = r.progress_phase;
  progress_message = r.progress_message;
  failure = r.failure;
  completion = completion;
}

-- GetStatus: `read` decodes the column completion.
unfoldable pub get_status : (String → Option Completion) → Row → RunStatus
get_status read r = status_of r (elim r.completion [ none ↦ none | some c ↦ read c ])

unfoldable pub set_completion : Codec → Row → Option Completion
unfolding claimed
set_completion codec r =
    let result = (claimed codec r).result in
    if not (is_completed r.status) then none else elim result [
      | none ↦ none
      | some o ↦ some (record {
        capability = "defense-validation";
        contract_id = "capability-completion@1.0";
        request_id = r.request_id;
        correlation_id = r.correlation_id;
        run_id = r.run_id;
        result_id = o.result_id;
        status = "completed";
        terminal_state = o.terminal_state;
        result_ref = o.result_ref;
        evidence_refs = o.evidence_refs;
        content_sha256 = o.content_sha256;
        size_bytes = o.size_bytes;
        created_at = o.created_at;
      })
    ]

unfoldable pub public_run_status : RunStatus → RunStatus
public_run_status s =
    if is_completed s.status then s else record s { result_id = none; completion = none }

pub data ItemReply : Type 0 where
  failed_with : ℕ → LifecycleError → ItemReply
  shows_status : RunStatus → ItemReply
  shows_result : String → ItemReply

abbrev pub not_found : ItemReply
not_found = failed_with 404 (error "run_not_found" "Run not found")

unfoldable pub handle_run_status : (String → Option Completion) → String → Table → ItemReply
unfolding get_status public_run_status
handle_run_status read id t = elim (get_durable id t) [
  | none ↦ not_found
  | some r ↦ shows_status (public_run_status (get_status read r))
]

-- publicStatus of a DurableRun.
unfoldable pub public_status : Codec → Row → RunStatus
unfolding public_run_status set_completion
public_status codec r = public_run_status (status_of r (set_completion codec r))

-- `view` is apiResultView.
module _ (codec : Codec) (view : String → String) where
  unfoldable pub result_reply : Row → ItemReply
  unfolding public_status claimed
  result_reply r =
      if not (terminal_status r.status)
      then failed_with 409 (error "run_not_terminal" "Run is not terminal")
      else if is_completed r.status && is_some (claimed codec r).result
      then elim r.result_payload [
        | none ↦ failed_with 500 (record {
          code = "result_payload_unavailable";
          detail = "Canonical result payload is unavailable";
          retryable = true;
        })
        | some p ↦ shows_result (view p)
      ]
      else shows_status (public_status codec r)

  unfoldable pub handle_run_result : String → Table → ItemReply
  unfolding result_reply
  handle_run_result id t = elim (get_durable id t) [ none ↦ not_found | some r ↦ result_reply r ]

unfoldable pub handle_run_cancel : Codec → ℕ → String → Table → ItemReply × Table
unfolding public_status
handle_run_cancel codec now id t =
    let t' = (update (cancel now id) t).0 in
    (
      elim (get_durable id t') [ none ↦ not_found | some r ↦ shows_status (public_status codec r) ],
      t',
    )
