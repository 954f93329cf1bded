-- ===== src/Tests/Executions.antt =====
-- A concrete run of the execution of a run, and of its hand-off.
use Prim.Native.String.{◌++◌ as append}
use test_defense_validation.Base.{◌≡◌, refl, true, false, none, some, ok, err}
use test_defense_validation.Outcome.{RunOutcome, Codec, set_canonical_integrity, digest_bytes}
use test_defense_validation.Payload.Assembly.{JanusPayloadOptions}
use test_defense_validation.Resolve.Report.{report_resolved_rule}
use test_defense_validation.Resolve.Request.{v2_locator_mode, locator_mode}
use test_defense_validation.Resolve.Upstream.{
  execute_scenario_upstream, select_by_capability, read_candidate,
}
use test_defense_validation.Resolve.Durable.{
  Service, RuleSink, EnforcementInput, Handoff, persist_resolved_rule, issue_rule,
  post_enforcement_issue, execute_durable_run, enveloped,
}
use test_defense_validation.Shared.Execute.{SharedCalls}
use test_defense_validation.Tests.Translations.{calls, plain_request, upstream_rule}
use test_defense_validation.Tests.Locators.{locator_calls}
use test_defense_validation.Tests.Coverages.{decode_rules, decode_carriers, two_rules}
use test_defense_validation.Text.{is_blank}
use test_defense_validation.Translation.{extract_custom_waf_rule}
use test_defense_validation.Ledger.Row.{Submission}
use test_defense_validation.Resolve.Published.{IsResultOf, IsSigned, durable_result}

abbrev pub plain_codec : Codec
plain_codec = record {
  marshal = λ _. some "bytes";
  unmarshal = λ _. none;
  marshal_completion = λ _. none;
  canonical = λ p. some p;
  sha256 = λ _. "sha256:1";
  size = λ _. 5;
}

abbrev pub shared_calls : SharedCalls
shared_calls = record {
  unmade = some "unset";
  resolve_v2 = λ _ _. err "unset";
  lower_other = λ c. c;
  decode_rules = decode_rules two_rules;
  decode_carriers = decode_carriers;
  show_unit_error = λ _. "";
  show_provenance = λ _. "";
  show_unit = λ _. "";
}

abbrev pub sink : RuleSink
sink = record {
  write_rule = λ _. none;
  rule_ref = λ id. record {
    system = "databricks";
    catalog = "c";
    schema = "s";
    table = "rules";
    key = id;
    placeholder = false;
  };
}

abbrev pub options : JanusPayloadOptions
options = record {
  cve = "CVE-2025-1";
  policy_version = 1;
  policy_id = "";
  rule_id = 1;
  control_instance_id = "";
  protected_hostname = "";
  target_scope_id = "";
  expected_current_action = "";
  expected_live_state_hash = "";
  recovery_spec_ref = "";
}

abbrev pub input : EnforcementInput
input = record { options = options; others = "" }

abbrev pub service : Codec → Service
service codec = record {
  upstream = calls;
  locator = locator_calls;
  shared = shared_calls;
  upstream_input_mode = true;
  decode_request = λ _. some plain_request;
  rule_sink = some sink;
  decode_enforcement = λ _. ok input;
  digest = λ s. append "sha256:" s;
  post = λ _ _ _. none;
  codec = codec;
  result_sink = none;
  tables = record { catalog = ""; schema = ""; table = "" };
}

abbrev issue : Handoff
issue = record {
  rule = issue_rule (λ s. append "sha256:" s) upstream_rule;
  input = input;
  identity = record {
    request_id = "";
    correlation_id = "";
    causation_id = "run-1";
    idempotency_key = "result-1";
  };
}

abbrev resolved : RunOutcome
resolved = execute_scenario_upstream calls plain_request "run-1" "result-1"

abbrev run : Submission
run = record {
  run_id = "run-1";
  result_id = "result-1";
  request_id = "request-1";
  correlation_id = "correlation-1";
  request = "{}";
  request_digest = "sha256:2";
  created_at = 100;
  callback_url = none;
  callback_workflow_id = none;
  callback_signal = none;
  callback_event_id = none;
}

abbrev posted : RunOutcome
posted =
    post_enforcement_issue (service plain_codec) plain_request
      (persist_resolved_rule (service plain_codec) resolved).0
      (persist_resolved_rule (service plain_codec) resolved).1

abbrev result : RunOutcome
result = record (enveloped (service plain_codec) run (some "[]") 200 posted) {
  content_sha256 = "sha256:1";
  size_bytes = 5;
}

executed : execute_durable_run (service plain_codec) run 200 ≡ some (ok result)
unfolding execute_durable_run v2_locator_mode is_blank locator_mode set_canonical_integrity
    digest_bytes enveloped execute_scenario_upstream select_by_capability read_candidate
    extract_custom_waf_rule report_resolved_rule
executed = refl

durable_result_example :
    IsResultOf (service plain_codec) run result × IsSigned (service plain_codec) result
durable_result_example = durable_result (service plain_codec) run 200 result executed
