-- ===== src/Resolve/Report.antt =====
-- How a resolution ends (api/result.go: resolutionFailed, reportResolvedRule,
-- placeholderResultRef; api/main.go: enrichEnvelope). What is written to standard output is left out.
use test_defense_validation.Base.{
  true, Option, none, some, String, str_eq, List, [], ◌∷◌, ◌++◌, if◌then◌else◌,
}
use test_defense_validation.Text.Strings.{concat, trim}
use test_defense_validation.Payload.Assembly.{first_non_empty}
use test_defense_validation.Outcome.{RunOutcome, CandidateSpec, ResultRef}

abbrev pub rule_resolved : String
rule_resolved = "rule-resolved"

abbrev pub failed : String
failed = "failed"

-- RunOutcome{RunID: runID, ResultID: resultID, ProfileID: profileID}.
abbrev pub base_outcome : String → String → String → RunOutcome
base_outcome run_id result_id profile_id = record {
  capability = "";
  contract_id = "";
  request_id = "";
  run_id = run_id;
  result_id = result_id;
  terminal_state = "";
  status = "";
  correlation_id = "";
  result_ref = none;
  evidence_refs = none;
  request_sha256 = "";
  upstream_inputs = none;
  input_provenance = none;
  profile_id = profile_id;
  application_unit = none;
  candidate = none;
  detail = "";
  steps = [];
  prose_summary = "";
  limitations = [];
  content_sha256 = "";
  size_bytes = 0;
  created_at = 0;
}

unfoldable pub resolution_failed : RunOutcome → String → RunOutcome
resolution_failed out reason = record out {
  terminal_state = failed;
  detail = reason;
  steps = out.steps ++ concat ("failed: " ∷ reason ∷ []) ∷ [];
  prose_summary = concat ("Could not resolve a defensive control candidate: " ∷ reason ∷ []);
}

abbrev pub not_executed : String
not_executed =
    "The rule was not executed and no traffic was run: this service reports the candidate, it does not judge it."

unfoldable pub report_resolved_rule : RunOutcome → CandidateSpec → String → String → RunOutcome
report_resolved_rule out cand source source_detail = record out {
  candidate = some cand;
  terminal_state = rule_resolved;
  detail = concat ("resolved from " ∷ source ∷ ": " ∷ source_detail ∷ []);
  steps =
      out.steps
      ++ concat ("read " ∷ cand.kind ∷ " (" ∷ cand.engine ∷ ") from " ∷ source_detail ∷ []) ∷ [];
  prose_summary = concat (
      "Resolved the " ∷ cand.engine ∷ " " ∷ cand.kind ∷ " from the verified " ∷ source
      ∷ " result and reported it." ∷ []);
  limitations = out.limitations ++ not_executed ∷ [];
}

-- DATABRICKS_CATALOG, DATABRICKS_SCHEMA and DATABRICKS_TABLE; unset is "".
pub record TableNames : Type 0 where
  pub catalog : String
  pub schema : String
  pub table : String

unfoldable pub placeholder_result_ref : TableNames → String → ResultRef
unfolding trim
placeholder_result_ref env result_id = record {
  system = "databricks";
  catalog = first_non_empty (trim env.catalog) "unset-catalog";
  schema = first_non_empty (trim env.schema) "defense_validation";
  table = first_non_empty (trim env.table) "defense_validation";
  key = result_id;
  placeholder = true;
}

unfoldable pub or_no_refs : Option (List String) → Option (List String)
or_no_refs none = some []
or_no_refs (some refs) = some refs

-- The sink's reference, where a sink is configured, is an argument.
unfoldable pub enrich_envelope :
    Option (String → ResultRef) → TableNames → String → RunOutcome → RunOutcome
unfolding or_no_refs placeholder_result_ref
enrich_envelope sink env correlation_id out = record out {
  capability = "defense-validation";
  contract_id = "defense-validation@1.0";
  correlation_id = correlation_id;
  evidence_refs = or_no_refs out.evidence_refs;
  status = if str_eq out.terminal_state "malfunction" then "failed" else "completed";
  result_ref = elim sink [
    | none ↦ some (placeholder_result_ref env out.result_id)
    | some ref ↦ some (ref out.result_id)
  ];
}
