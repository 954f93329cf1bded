-- ===== src/Tests/Locators.antt =====
-- A concrete run of the executor of reference-only requests.
use Prim.Native.String.{◌++◌ as append}
use test_defense_validation.Base.{
  ℕ, ◌≡◌, refl, true, false, none, some, String, str_eq, List, [], ◌∷◌, ok, err, if◌then◌else◌, ◌≢◌,
  arith, ap,
}
use test_defense_validation.Outcome.{CandidateSpec, RunOutcome}
use test_defense_validation.Json.{
  Fields, null, boolean, numeral, text, array, object, no_elements, element, no_fields, field,
  units, commas, sort_pairs,
}
use test_defense_validation.Json.Canonical.{write_value}
use test_defense_validation.Json.Reordered.{canonical_reordered, fields, swap}
use test_defense_validation.Resolve.Request.{
  UpstreamRef, SubmitDefenseValidationRequest, ImmutableResultLocator,
}
use test_defense_validation.Resolve.Locator.{validate_immutable_locator, validate_locator_request}
use test_defense_validation.Resolve.Rows.{
  DefenseRow, CheckRow, DefenseCandidate, DefenseResult, StoredResult, RowCalls, verify_defense_row,
  stable_string_union, union_upstream,
}
use test_defense_validation.Resolve.CheckRow.{verify_check_row}
use test_defense_validation.Resolve.Locate.{
  LocatorCalls, ResolvedLocatorInputs, execute_scenario_by_locator, locator_provenance,
  reported_locator,
}
use test_defense_validation.Resolve.Located.{Stands}
use test_defense_validation.Resolve.Admitted.{locator_verified}
use test_defense_validation.Tests.Translations.{plain_request}
use test_defense_validation.Resolve.Report.{report_resolved_rule, base_outcome}
use test_defense_validation.Text.{is_blank}
use test_defense_validation.Resolve.Action.{derive_rule_action}

-- A digest that is well formed, of every text.
abbrev hash : String
hash = "sha256:0123456789abcdef0123456789abcdef0123456789abcdef0123456789abcdef"

abbrev defense_ref : UpstreamRef
defense_ref = record {
  system = "databricks";
  catalog = "36889_janus_dev";
  schema = "defense_generation";
  table = "defense_generation_results";
  key = "defense-generation-result:1";
}

abbrev defense : ImmutableResultLocator
defense = record {
  capability = "defense-generation";
  contract_id = "defense-generation-result@1.0";
  request_id = "request-1";
  correlation_id = "correlation-1";
  run_id = "run-1";
  result_id = "defense-generation-result:1";
  status = "completed";
  terminal_state = "candidate-produced";
  result_ref = defense_ref;
  content_sha256 = hash;
  size_bytes = 8;
  created_at = "2026-01-01T00:00:00Z";
}

abbrev check : ImmutableResultLocator
check = record {
  capability = "check-generation";
  contract_id = "check-generation-result@1.0";
  request_id = "request-2";
  correlation_id = "correlation-1";
  run_id = "run-2";
  result_id = "check-generation-result:run-2";
  status = "completed";
  terminal_state = "completed";
  result_ref = record {
    system = "databricks";
    catalog = "36889_janus_dev";
    schema = "check_generation";
    table = "check_generation_results";
    key = "check-generation-result:run-2";
  };
  content_sha256 = hash;
  size_bytes = 532;
  created_at = "2026-01-01T00:00:00Z";
}

abbrev candidate : DefenseCandidate
candidate = record {
  candidate_id = "candidate-1";
  artifact_type = "modsecurity-rule";
  artifact_content = "SecRule deny";
  artifact_hash = hash;
  evidence_refs = "evidence-1" ∷ [];
  others = "";
}

abbrev defense_result : DefenseResult
defense_result = record {
  capability = "defense-generation";
  contract_id = "defense-generation-result@1.0";
  request_id = "request-1";
  correlation_id = "correlation-1";
  run_id = "run-1";
  result_id = "defense-generation-result:1";
  status = "completed";
  terminal_state = "candidate-produced";
  result_ref = some defense_ref;
  evidence_refs = [];
  primary_candidate = some candidate;
  candidate_bundle = none;
  candidate_artifact_contents = [];
  upstream_result_refs = [];
  content_sha256 = hash;
  size_bytes = 8;
  created_at = "2026-01-01T00:00:00Z";
  others = "";
}

abbrev check_ref : Fields
check_ref = field "system" (text "databricks") (
    field "catalog" (text "36889_janus_dev") (
      field "schema" (text "check_generation") (
        field "table" (text "check_generation_results")
          (field "key" (text "check-generation-result:run-2") no_fields))))

abbrev completion : Fields
completion = field "capability" (text "check-generation") (
    field "contract_id" (text "capability-completion@1.0") (
      field "run_id" (text "run-2") (
        field "result_id" (text "check-generation-result:run-2") (
          field "terminal_state" (text "completed") (
            field "status" (text "completed") (
              field "request_id" (text "request-2") (
                field "correlation_id" (text "correlation-1") (
                  field "result_ref" (object check_ref) (
                    field "upstream_result_refs" (array (element null no_elements)) (
                      field "evidence_refs" (array (element (text "evidence-2") no_elements)) (
                        field "characterization_revision_id" null (
                          field "result_contract_type" (text "check-generation-result") (
                            field "result_contract_version" (text "1.0") (
                              field "subject_record_revision_id" null (
                                field "content_sha256" (text hash) (
                                  field "size_bytes" (numeral "532") (
                                    field "created_at" (text "2026-01-01T00:00:00Z")
                                      no_fields)))))))))))))))))

abbrev nested : Fields
nested = field "contract_id" (text "check-generation@2.1") (
    field "run_id" (text "run-2")
      (field "request_id" (text "request-2") (field "run_status" (text "completed") no_fields)))

abbrev stored : StoredResult
stored = record {
  contract_type = "check-generation-persisted-result";
  contract_version = "1.0";
  result_id = "check-generation-result:run-2";
  run_result = some "nested";
}

abbrev rows : RowCalls
rows = record {
  digest = λ _. hash;
  parse_time = λ _. some 1;
  parse_plain = λ _. none;
  decode_defense = λ s. if str_eq s "defense" then some defense_result else none;
  marshal_defense = λ _. some "unsigned";
  canonical_sorted = λ s. some s;
  decode_manifest = λ _. none;
  has_manifest_shape = λ _. false;
  decode_stored = λ s. if str_eq s "stored" then some stored else none;
  decode_value = λ s.
      if str_eq s "completion"
      then some (object completion)
      else if str_eq s "nested"
      then some (object nested)
      else none;
  natural = λ s. if str_eq s "532" then some 532 else none;
  number = λ s. some s;
  quote = λ s. append "\"" (append s "\"");
  volume = λ _ _. err "none";
}

abbrev defense_row : DefenseRow
defense_row = record {
  run_id = "run-1";
  result_id = "defense-generation-result:1";
  terminal_state = "candidate-produced";
  result_json = "defense";
}

abbrev check_row : CheckRow
check_row = record {
  result_id = "check-generation-result:run-2";
  run_id = "run-2";
  request_id = "request-2";
  correlation_id = "correlation-1";
  capability = "check-generation";
  terminal_state = "completed";
  status = "completed";
  result_json = "stored";
  completion_json = "completion";
  result_sha256 = hash;
  result_size_bytes = 6;
  created_at = "2026-01-01 00:00:00";
}

abbrev pub locator_calls : LocatorCalls
locator_calls = record {
  rows = rows;
  unmade = none;
  defense = λ _. ok (defense_row ∷ []);
  check = λ _. ok (check_row ∷ []);
  show_provenance = λ _. "";
}

abbrev pub pinned_request : SubmitDefenseValidationRequest
pinned_request = record plain_request {
  route_policy = "registered-waf-route-v1";
  defense_result = some defense;
  check_result = some check;
  upstream_inputs = none;
}

abbrev pinned_rule : CandidateSpec
pinned_rule = record {
  kind = "waf-rule";
  engine = "modsecurity";
  rule_id = "candidate-1";
  rule = "SecRule deny";
  action = "deny";
}

admitted : validate_locator_request rows.parse_time pinned_request ≡ []
unfolding validate_locator_request
admitted = refl

abbrev resolved : ResolvedLocatorInputs
resolved = record {
  candidate = pinned_rule;
  provenance = locator_provenance defense check;
  evidence_refs = "evidence-1" ∷ "evidence-2" ∷ [];
}

abbrev pinned_outcome : RunOutcome
pinned_outcome = reported_locator locator_calls (base_outcome "run-3" "result-3" "") resolved

abbrev head_or : List ℕ → ℕ
head_or [] = 0
head_or (c ∷ cs) = c

executes :
    execute_scenario_by_locator locator_calls pinned_request "run-3" "result-3"
    ≡ some pinned_outcome
unfolding execute_scenario_by_locator validate_immutable_locator verify_defense_row is_blank
    verify_check_row commas sort_pairs derive_rule_action stable_string_union union_upstream
executes = refl

reports : pinned_outcome.candidate ≡ some pinned_rule
unfolding report_resolved_rule
reports = refl

locator_verified_example :
    (d : ImmutableResultLocator) × (c : ImmutableResultLocator) × (r : ResolvedLocatorInputs)
    × (pinned_request.defense_result ≡ some d)
    × (pinned_request.check_result ≡ some c)
    × (r.candidate ≡ pinned_rule)
    × Stands locator_calls d c r
locator_verified_example =
    locator_verified locator_calls pinned_request "run-3" "result-3" pinned_outcome pinned_rule
      executes reports

keys_differ : units "b" ≢ units "a"
unfolding units
keys_differ h = absurd (omega (arith, ap head_or h))

canonical_reordered_example :
    write_value rows.number rows.quote
      (object (field "b" null (field "a" (boolean true) no_fields)))
    ≡ write_value rows.number rows.quote
        (object (field "a" (boolean true) (field "b" null no_fields)))
canonical_reordered_example =
    canonical_reordered rows.number rows.quote
      (object (field "b" null (field "a" (boolean true) no_fields)))
      (object (field "a" (boolean true) (field "b" null no_fields))) (fields (swap keys_differ))
