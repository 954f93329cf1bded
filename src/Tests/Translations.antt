-- ===== src/Tests/Translations.antt =====
-- Concrete runs of the control translation and of the executor of upstream inputs.
use Prim.Native.String.{◌++◌ as append}
use test_defense_validation.Base.{
  ◌≡◌, ◌↔◌, refl, true, none, some, String, str_eq, [], ◌∷◌, ok, err, if◌then◌else◌,
}
use test_defense_validation.Outcome.{CandidateSpec}
use test_defense_validation.Payload.Assembly.{no_metadata}
use test_defense_validation.Translation.{
  TranslationCodec, ControlTranslationResult, ControlTranslationArtifact,
  ControlTranslationCandidate, extract_custom_waf_rule, extracted,
}
use test_defense_validation.Translation.Accepted.{Carries, extract_iff}
use test_defense_validation.Resolve.Request.{SubmitDefenseValidationRequest}
use test_defense_validation.Resolve.Upstream.{
  UpstreamInput, UpstreamCalls, execute_scenario_upstream, select_by_capability, read_candidate,
  candidate_kind, candidate_engine,
}
use test_defense_validation.Resolve.Action.{derive_rule_action}
use test_defense_validation.Resolve.Report.{report_resolved_rule}
use test_defense_validation.Resolve.Verified.{ReadFrom, upstream_verified}
use test_defense_validation.Text.{is_blank}
use test_defense_validation.Text.Strings.{trim}

abbrev pub rule_text : String
rule_text = " SecRule ARGS \"@rx x\" \"id:1,phase:2,deny\" "

abbrev pub translated_candidate : ControlTranslationCandidate
translated_candidate = record {
  artifact_id = "artifact-1";
  artifact_type = "Akamai-WAF-rule-set";
  candidate_id = "candidate-1";
  content_hash = "";
  content_ref = "";
  target_control_class = "WAF";
  target_technology = "akamai-waf";
  target_policy_context_id = "";
  candidate_metadata = no_metadata;
}

abbrev pub translated_artifact : ControlTranslationArtifact
translated_artifact = record {
  artifact_type = "";
  kind = "match-rule";
  role = "";
  emitted_as = "";
  media_type = "application/json";
  order = 0;
  content = rule_text;
  content_hash = append "sha256:" rule_text;
}

abbrev pub translated : ControlTranslationResult
translated = record {
  capability = "control-translation";
  contract_id = "control-translation-result@2.0";
  result_id = "result-1";
  status = "completed";
  terminal_state = "translated";
  profile_id = "";
  primary_candidate = translated_candidate;
  artifacts = ("artifact-1", translated_artifact) ∷ [];
}

abbrev pub codec : TranslationCodec
codec = record {
  decode = λ raw. if str_eq raw "row" then some translated else none;
  decode_capability = λ raw. if str_eq raw "row" then some "control-translation" else none;
  is_valid = λ _. true;
  digest = λ s. append "sha256:" s;
}

row_carries :
    extract_custom_waf_rule codec "row" ≡ ok (extracted translated_candidate translated_artifact)
unfolding extract_custom_waf_rule is_blank
row_carries = refl

extract_iff_example :
    (extract_custom_waf_rule codec "row" ≡ ok (extracted translated_candidate translated_artifact))
    ↔ Carries codec "row" (extracted translated_candidate translated_artifact)
extract_iff_example = extract_iff codec "row" (extracted translated_candidate translated_artifact)

abbrev pub entry : UpstreamInput
entry = record {
  capability = " Control-Translation";
  contract_id = "control-translation-result@1.0";
  result_id = "result-1";
  result_ref = record {
    system = "databricks";
    catalog = "c";
    schema = "s";
    table = "t";
    key = "result-1";
  };
  evidence_refs = "evidence-1" ∷ "" ∷ "evidence-1" ∷ [];
}

abbrev pub calls : UpstreamCalls
calls = record {
  codec = codec;
  lower_other = λ c. c;
  decode_inputs = λ _. some (entry ∷ []);
  reader = some (λ _ key. if str_eq key "result-1" then ok "row" else err "no rows");
  show_inputs = λ _. "";
  show_read = λ _. "";
  decode_candidate = λ _. err "none";
}

abbrev pub plain_request : SubmitDefenseValidationRequest
plain_request = record {
  contract_id = "";
  request_id = "request-1";
  candidate_artifact_id = "";
  test_basis_id = "";
  check_profile_id = "";
  candidate = none;
  correlation_id = "correlation-1";
  enforcement = some "{}";
  route_policy = "";
  defense_result = none;
  check_result = none;
  profile_id = "";
  primary_candidate = none;
  attempt_history = none;
  outcome_reason = none;
  proof_handoffs = none;
  upstream_inputs = some "[]";
  result_ref = none;
  produced_at = "";
  prose_summary = "";
  result_id = "";
  terminal_state = "";
}

abbrev pub upstream_rule : CandidateSpec
upstream_rule = record {
  kind = "waf-rule";
  engine = "akamai-waf";
  rule_id = "";
  rule = "SecRule ARGS \"@rx x\" \"id:1,phase:2,deny\"";
  action = "deny";
}

upstream_reported :
    (execute_scenario_upstream calls plain_request "run-1" "result-1").candidate
    ≡ some upstream_rule
unfolding execute_scenario_upstream select_by_capability is_blank read_candidate
    extract_custom_waf_rule report_resolved_rule candidate_kind candidate_engine trim
    derive_rule_action
upstream_reported = refl

upstream_verified_example : ReadFrom calls plain_request upstream_rule
upstream_verified_example =
    upstream_verified calls plain_request "run-1" "result-1" upstream_rule upstream_reported
