-- ===== src/Service/Submit.antt =====
-- The submission of a run (api/lifecycle.go: handleAsyncSubmit, submissionFrom). Log lines are left
-- out.
use Prim.Native.String.{◌++◌ as append}
use test_defense_validation.Base.{
  ℕ, Bool, true, false, not, ◌&&◌, ◌||◌, Option, none, some, String, str_eq, List, [], ◌∷◌,
  if◌then◌else◌, Result, ok, err, is_some,
}
use test_defense_validation.Ledger.Row.{Row, Submission, Status, terminal_status, coalesce}
use test_defense_validation.Ledger.Update.{Table}
use test_defense_validation.Ledger.Tables.{Fault, try_create_or_get}

pub record LifecycleError : Type 0 where
  pub code : String
  pub detail : String
  pub retryable : Bool

pub record SubmissionResponse : Type 0 where
  pub capability : String
  pub contract_id : String
  pub request_id : String
  pub correlation_id : String
  pub run_id : String
  pub status : Status
  pub status_url : String
  pub result_url : String
  pub accepted_at : ℕ

-- An error with its HTTP status, or a submission with its.
pub data SubmitReply : Type 0 where
  refused : ℕ → LifecycleError → SubmitReply
  submitted : ℕ → SubmissionResponse → SubmitReply

-- The trimmed texts of the callback headers.
pub record Callback : Type 0 where
  pub url : String
  pub workflow_id : String
  pub signal : String

-- The decoded body: the members that the handler reads, and all others as one text.
pub record Body : Type 0 where
  pub request_id : String
  pub correlation_id : String
  pub callback : Option String
  pub others : String

-- What the request brings: whether its media type is application/json, the trimmed identifiers of
-- its headers, and the results of callbackMetadataFromHeaders and decodeRequest.
pub record Incoming : Type 0 where
  pub json : Bool
  pub idempotency_key : String
  pub correlation : String
  pub callback : Result LifecycleError (Option Callback)
  pub body : Result String Body

-- What newID and the clock give: the id of the run and of its result, both with their prefixes.
pub record Fresh : Type 0 where
  pub run_id : String
  pub result_id : String
  pub now : ℕ

abbrev pub error : String → String → LifecycleError
error code detail = record { code = code; detail = detail; retryable = false }

-- strings.Join(fields, ", ").
unfoldable pub listed : List String → String
listed [] = ""
listed (f ∷ []) = f
listed (f ∷ g ∷ fs) = append f (append ", " (listed (g ∷ fs)))

abbrev pub filled : Incoming → Body → Body
filled i b = record b {
  request_id = if str_eq b.request_id "" then i.idempotency_key else b.request_id;
  correlation_id = if str_eq b.correlation_id "" then i.correlation else b.correlation_id;
}

-- nullable of store.CreateOrGet.
abbrev pub nullable : String → Option String
nullable v = if str_eq v "" then none else some v

-- The DurableRun without callback columns, as CreateOrGet stores it.
abbrev pub plain_run : Fresh → Body → String → String → Submission
plain_run f b normalized digest = record {
  run_id = f.run_id;
  result_id = f.result_id;
  request_id = b.request_id;
  correlation_id = b.correlation_id;
  request = normalized;
  request_digest = digest;
  created_at = f.now;
  callback_url = none;
  callback_workflow_id = none;
  callback_signal = none;
  callback_event_id = none;
}

unfoldable pub new_run : Fresh → Body → String → String → Option Callback → Submission
new_run f b normalized digest none = plain_run f b normalized digest
new_run f b normalized digest (some c) =
    if str_eq c.url ""
    then plain_run f b normalized digest
    else record (plain_run f b normalized digest) {
      callback_url = some c.url;
      callback_workflow_id = nullable c.workflow_id;
      callback_signal = nullable c.signal;
      callback_event_id = some (append "defense-validation:" (append f.run_id ":terminal:v1"));
    }

abbrev pub runs_path : String
runs_path = "/v1/defense-validation-runs"

unfoldable pub submission_from : Row → SubmissionResponse
submission_from r = record {
  capability = "defense-validation";
  contract_id = "defense-validation-run-submission@1.0";
  request_id = r.request_id;
  correlation_id = r.correlation_id;
  run_id = r.run_id;
  status = r.status;
  status_url = append runs_path (append "/" r.run_id);
  result_url = append runs_path (append "/" (append r.run_id "/result"));
  accepted_at = r.created_at;
}

-- `COALESCE(callback_url,'')` of getDurable, and the comparison with the new run's.
abbrev pub same_text : Option String → Option String → Bool
same_text a b = str_eq (coalesce a "") (coalesce b "")

-- The answer after CreateOrGet.
unfoldable pub stored_reply : Submission → Row → Bool → SubmitReply
unfolding submission_from
stored_reply s stored created =
    if not (str_eq stored.request_digest s.request_digest)
    then refused 409 (
        error "idempotency_conflict"
          "Idempotency-Key was already used with a different normalized request")
    else if not (same_text stored.callback_url s.callback_url)
        || not (same_text stored.callback_workflow_id s.callback_workflow_id)
        || not (same_text stored.callback_signal s.callback_signal)
    then refused 409 (
        error "idempotency_callback_conflict"
          "Idempotency-Key was already used with different callback metadata")
    else submitted (if not created && terminal_status stored.status then 200 else 202)
        (submission_from stored)

abbrev pub unavailable : LifecycleError
unavailable = record {
  code = "ledger_unavailable";
  detail = "Could not persist the run";
  retryable = true;
}

abbrev pub answer_stored : Submission → Option (Row × Bool) × Table → SubmitReply × Table
answer_stored s (none, t) = (refused 500 unavailable, t)
answer_stored s (some (stored, created), t) = (stored_reply s stored created, t)

unfoldable pub store_run : Fault → Submission → Table → SubmitReply × Table
unfolding try_create_or_get
store_run fault s t = answer_stored s (try_create_or_get fault s t)

-- `validate` and `normalized` are validate and normalizedRequest; the latter gives the normalized
-- body and its digest.
module _ (validate : Body → List String) (normalized : Body → Option (String × String)) where
  -- The tests on the filled body, up to the new run.
  unfoldable pub accept :
      Incoming → Fresh → Option Callback → Body → Result (ℕ × LifecycleError) Submission
  unfolding new_run listed
  accept i f callback b =
      if not (str_eq b.request_id i.idempotency_key) || not (str_eq b.correlation_id i.correlation)
      then err (
        400,
        error "request_identity_mismatch"
            "request_id, Idempotency-Key, correlation_id, and X-Correlation-ID must align",
      )
      else elim (validate b) [
        | field ∷ fields ↦ err (
          400,
          error "invalid_request" (
              append "Request does not satisfy defense-validation@1.0: " (listed (field ∷ fields))),
        )
        | [] ↦
            if is_some b.callback
            then err (
              400,
              error "invalid_callback_location"
                  "Completion callbacks must be supplied with the X-Janus-Callback-* headers",
            )
            else elim (normalized b) [
              | none ↦ err (400, error "invalid_request" "Request could not be normalized")
              | some (text, digest) ↦ ok (new_run f b text digest callback)
            ]
      ]

  -- All tests in their order.
  unfoldable pub check_submission : Incoming → Fresh → Result (ℕ × LifecycleError) Submission
  unfolding accept
  check_submission i f =
      if not i.json
      then err (415, error "unsupported_media_type" "Content-Type must be application/json")
      else if str_eq i.idempotency_key "" || str_eq i.correlation ""
      then err
          (400, error "missing_required_header" "Idempotency-Key and X-Correlation-ID are required")
      else elim i.callback [
        | err e ↦ err (400, e)
        | ok callback ↦ elim i.body [
          | err message ↦ err (400, error "invalid_request" message)
          | ok b ↦ accept i f callback (filled i b)
        ]
      ]

  unfoldable pub handle_async_submit : Fault → Incoming → Fresh → Table → SubmitReply × Table
  unfolding check_submission store_run
  handle_async_submit fault i f t = elim (check_submission i f) [
    | err (status, e) ↦ (refused status e, t)
    | ok s ↦ store_run fault s t
  ]
