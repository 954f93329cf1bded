-- ===== src/Tests/Requests.antt =====
-- Requests at concrete tables (api/lifecycle.go).
use text.Mathlib.TextLemmas.{cons≢nil}
use test_defense_validation.Ledger.Reachable.{Steps-IsValid}
use test_defense_validation.Base.{
  ◌≡◌, String, Option, ℕ, ◌∷◌, [], true, some, List, none, ok, is_some, refl, if◌then◌else◌,
}
use test_defense_validation.Service.Submit.{
  Body, Fresh, LifecycleError, SubmissionResponse, handle_async_submit, Incoming, error,
  submission_from, new_run, stored_reply, filled, refused, submitted,
}
use test_defense_validation.Outcome.{Codec, Completion}
use test_defense_validation.Ledger.Row.{Row}
use test_defense_validation.Service.Items.{
  public_run_status, get_status, is_completed, shows_status, result_reply,
}
use test_defense_validation.Ledger.Tables.{new_row, get_durable, Fault, no_fault}
use test_defense_validation.Tests.Codecs.{sample_codec, sample}
use test_defense_validation.Worker.Execute.{completion_of}
use test_defense_validation.Tests.Rows.{completed_row, limits, submission, to_completed}
use test_defense_validation.Service.Idempotence.{submit_again}
use test_defense_validation.Service.Answers.{completion_shown}
use test_defense_validation.Service.Addresses.{has_slash}
use test_defense_validation.Service.Routes.{handle_run_item}
use test_defense_validation.Service.Reached.{submission_reached}

abbrev body : Body
body = record { request_id = ""; correlation_id = "c-1"; callback = none; others = "{}" }

abbrev incoming : Incoming
incoming = record {
  json = true;
  idempotency_key = "request-1";
  correlation = "c-1";
  callback = ok none;
  body = ok body;
}

abbrev first_ids : Fresh
first_ids = record { run_id = "run-1"; result_id = "result-1"; now = 100 }

abbrev later_ids : Fresh
later_ids = record { run_id = "run-2"; result_id = "result-2"; now = 200 }

abbrev no_fields : Body → List String
no_fields b = []

abbrev as_text : Body → Option (String × String)
as_text b = some (b.others, "digest")

abbrev stored_row : Row
stored_row = new_row (new_run first_ids (filled incoming body) "{}" "digest" none)

abbrev first_response : SubmissionResponse
first_response = submission_from stored_row

accepted :
    handle_async_submit no_fields as_text no_fault incoming first_ids []
    ≡ (submitted 202 first_response, stored_row ∷ [])
unfolding handle_async_submit new_run new_row submission_from stored_reply
accepted = refl

submit_again_example :
    ((again : ℕ) × (handle_async_submit no_fields as_text no_fault incoming later_ids
          (stored_row ∷ [])
        ≡ (submitted again first_response, stored_row ∷ [])))
    × ((failure : Fault)
        → (handle_async_submit no_fields as_text failure incoming later_ids (stored_row ∷ [])).1
          ≡ (stored_row ∷ []))
submit_again_example =
    submit_again no_fields as_text no_fault incoming first_ids later_ids [] (stored_row ∷ []) 202
      first_response accepted

-- The same key with another body.
abbrev other_text : Body → Option (String × String)
other_text b = some (b.others, "other digest")

abbrev conflict : LifecycleError
conflict =
    error "idempotency_conflict"
      "Idempotency-Key was already used with a different normalized request"

refuses :
    handle_async_submit no_fields other_text no_fault incoming later_ids (stored_row ∷ [])
    ≡ (refused 409 conflict, stored_row ∷ [])
unfolding handle_async_submit new_run new_row stored_reply
refuses = refl

abbrev any_codec : Codec
any_codec = record sample_codec { unmarshal = λ p. some (sample "sha256:0" 8) }

abbrev read_completion : String → Option Completion
read_completion c = some (completion_of (sample "sha256:0" 8))

reads : (c : String) → completed_row.completion ≡ some c → is_some (read_completion c) ≡ true
reads c e = refl

completion_shown_example :
    let s = public_run_status (get_status read_completion completed_row) in
    (is_some s.completion ≡ is_completed completed_row.status)
    × (s.result_id ≡ (
        if is_completed completed_row.status
        then (get_status read_completion completed_row).result_id
        else none))
completion_shown_example =
    completion_shown limits read_completion completed_row
      ((Steps-IsValid limits submission to_completed).1) reads

submission_reached_example :
    (r : Row) × (get_durable "run-1" (stored_row ∷ []) ≡ some r)
    × (handle_run_item
          (λ _. none)
          sample_codec
          (λ p. p)
          150
          "GET"
          "/v1/defense-validation-runs/run-1"
          (stored_row ∷ [])
        ≡ (shows_status (public_run_status (get_status (λ _. none) r)), stored_row ∷ []))
    × (handle_run_item
          (λ _. none)
          sample_codec
          (λ p. p)
          150
          "GET"
          "/v1/defense-validation-runs/run-1/result"
          (stored_row ∷ [])
        ≡ (result_reply sample_codec (λ p. p) r, stored_row ∷ []))
unfolding submission_from new_run new_row has_slash
submission_reached_example =
    submission_reached (λ _. none) sample_codec (λ p. p) no_fields as_text no_fault incoming
      first_ids [] (stored_row ∷ []) 202 150 first_response tt accepted (refl, λ e. cons≢nil e)
