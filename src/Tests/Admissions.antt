-- ===== src/Tests/Admissions.antt =====
-- Concrete requests before the validation (api/main.go: validate).
use test_defense_validation.Base.{◌≡◌, refl, true, false, some, String, ℕ, [], ◌∷◌}
use test_defense_validation.Text.{is_blank}
use test_defense_validation.Text.Strings.{trim}
use test_defense_validation.Translation.{extract_custom_waf_rule}
use test_defense_validation.Outcome.{RunOutcome}
use test_defense_validation.Resolve.Report.{report_resolved_rule}
use test_defense_validation.Resolve.Request.{
  SubmitDefenseValidationRequest, v2_locator_mode, locator_mode,
}
use test_defense_validation.Resolve.Upstream.{
  parse_upstream_inputs, execute_scenario_upstream, select_by_capability, read_candidate,
  candidate_kind, candidate_engine,
}
use test_defense_validation.Resolve.Action.{derive_rule_action}
use test_defense_validation.Resolve.Verified.{Ends, ReadFrom}
use test_defense_validation.Resolve.Durable.{resolve_requested_rule_input}
use test_defense_validation.Service.Validate.{validate, has_contract, names_row}
use test_defense_validation.Service.Admission.{admitted_resolved, admitted_upstream}
use test_defense_validation.Tests.Translations.{calls, plain_request, upstream_rule}
use test_defense_validation.Tests.Executions.{service, plain_codec}
use test_defense_validation.Tests.Locators.{locator_calls}

-- fmt.Sprintf, for the first entry alone.
abbrev at_index : ℕ → String
at_index n = "upstream_inputs[0]"

abbrev full_request : SubmitDefenseValidationRequest
full_request = record plain_request {
  contract_id = "defense-validation@1.0";
  candidate_artifact_id = "artifact-1";
  test_basis_id = "basis-1";
  check_profile_id = "profile-1";
}

-- Without the references the request is refused although it names its rule.
references_required :
    validate calls locator_calls.rows.parse_time at_index
      (record plain_request { contract_id = "defense-validation@1.0" })
    ≡ "candidate_artifact_id" ∷ "test_basis_id" ∷ "check_profile_id" ∷ []
unfolding validate v2_locator_mode locator_mode is_blank parse_upstream_inputs
references_required = refl

admitted : validate calls locator_calls.rows.parse_time at_index full_request ≡ []
unfolding validate v2_locator_mode locator_mode is_blank parse_upstream_inputs
admitted = refl

admitted_resolved_example :
    (out : RunOutcome) × (resolve_requested_rule_input
        (service plain_codec)
        full_request
        "run-1"
        "result-1"
      ≡ some out)
    × Ends "run-1" "result-1" out
admitted_resolved_example =
    admitted_resolved (service plain_codec) at_index full_request "run-1" "result-1" admitted

not_v2 : v2_locator_mode full_request ≡ false
unfolding v2_locator_mode is_blank
not_v2 = refl

not_located : locator_mode full_request ≡ false
unfolding locator_mode is_blank
not_located = refl

reported :
    (execute_scenario_upstream calls full_request "run-1" "result-1").candidate ≡ some upstream_rule
unfolding execute_scenario_upstream select_by_capability is_blank read_candidate
    extract_custom_waf_rule report_resolved_rule candidate_kind candidate_engine trim
    derive_rule_action
reported = refl

admitted_upstream_example :
    ((r : ReadFrom calls full_request upstream_rule) × ((has_contract (r.1) ≡ true)
        × (names_row (r.1) ≡ true)))
    × (is_blank "artifact-1" ≡ false)
    × (is_blank "basis-1" ≡ false)
    × (is_blank "profile-1" ≡ false)
admitted_upstream_example =
    admitted_upstream calls locator_calls.rows.parse_time at_index full_request "run-1" "result-1"
      upstream_rule admitted not_v2 not_located reported
