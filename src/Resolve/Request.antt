-- ===== src/Resolve/Request.antt =====
-- The request as the executors read it (api/main.go: SubmitDefenseValidationRequest,
-- api/executor_upstream.go: upstreamRef, api/executor_locator.go: ImmutableResultLocator).
use test_defense_validation.Base.{ℕ, Option, String, is_some, ◌||◌, Bool, not, str_eq}
use test_defense_validation.Text.{is_blank}

pub record UpstreamRef : Type 0 where
  pub system : String
  pub catalog : String
  pub schema : String
  pub table : String
  pub key : String

pub record ImmutableResultLocator : Type 0 where
  pub capability : String
  pub contract_id : String
  pub request_id : String
  pub correlation_id : String
  pub run_id : String
  pub result_id : String
  pub status : String
  pub terminal_state : String
  pub result_ref : UpstreamRef
  pub content_sha256 : String
  pub size_bytes : ℕ
  pub created_at : String

-- A raw JSON member is `none` where it has no bytes. The callback is read by the handler alone.
pub record SubmitDefenseValidationRequest : Type 0 where
  pub contract_id : String
  pub request_id : String
  pub candidate_artifact_id : String
  pub test_basis_id : String
  pub check_profile_id : String
  pub candidate : Option String
  pub correlation_id : String
  pub enforcement : Option String
  pub route_policy : String
  pub defense_result : Option ImmutableResultLocator
  pub check_result : Option ImmutableResultLocator
  pub profile_id : String
  pub primary_candidate : Option String
  pub attempt_history : Option String
  pub outcome_reason : Option String
  pub proof_handoffs : Option String
  pub upstream_inputs : Option String
  pub result_ref : Option String
  pub produced_at : String
  pub prose_summary : String
  pub result_id : String
  pub terminal_state : String

-- locatorMode and v2LocatorMode.
unfoldable pub locator_mode : SubmitDefenseValidationRequest → Bool
locator_mode r = is_some r.defense_result || is_some r.check_result || not (is_blank r.route_policy)

unfoldable pub v2_locator_mode : SubmitDefenseValidationRequest → Bool
v2_locator_mode r =
    str_eq r.route_policy "shared-attack-contracts-v2" || not (is_blank r.profile_id)

-- The members of a producer's result that must not stand in a request that names it.
unfoldable pub has_inline_upstream : SubmitDefenseValidationRequest → Bool
has_inline_upstream r =
    is_some r.primary_candidate
    || is_some r.attempt_history
    || is_some r.outcome_reason
    || is_some r.proof_handoffs
    || is_some r.result_ref
    || not (str_eq r.produced_at "")
    || not (str_eq r.prose_summary "")
    || not (str_eq r.result_id "")
    || not (str_eq r.terminal_state "")
