-- ===== src/Resolve/Durable.antt =====
-- The execution of a run (api/lifecycle.go: executeDurableRun, resolveRequestedRule,
-- resolveRequestedRuleInput, persistResolvedRule, upstreamEvidenceRefs; api/enforcement.go:
-- postEnforcementIssue, parseEnforcementInput, recordPostFailure). Progress reports are left out.
use Prim.Native.String.{◌++◌ as append}
use test_defense_validation.Base.{
  ℕ, Bool, true, false, not, ◌&&◌, ◌||◌, Option, none, some, String, str_eq, List, [], ◌∷◌, ◌++◌,
  if◌then◌else◌, Result, ok, err, is_some,
}
use test_defense_validation.Text.{is_blank}
use test_defense_validation.Text.Strings.{concat, trim_suffix}
use test_defense_validation.Payload.Rules.{contains}
use test_defense_validation.Payload.Assembly.{CustomWafRule, JanusPayloadOptions, no_metadata}
use test_defense_validation.Outcome.{
  RunOutcome, CandidateSpec, ResultRef, Codec, set_canonical_integrity,
}
use test_defense_validation.Ledger.Row.{Submission}
use test_defense_validation.Resolve.Report.{TableNames, enrich_envelope, rule_resolved}
use test_defense_validation.Resolve.Request.{
  SubmitDefenseValidationRequest, locator_mode, v2_locator_mode,
}
use test_defense_validation.Resolve.Upstream.{
  UpstreamCalls, UpstreamInput, parse_upstream_inputs, execute_scenario_upstream,
  report_inline_candidate,
}
use test_defense_validation.Resolve.Locate.{LocatorCalls, execute_scenario_by_locator}
use test_defense_validation.Shared.Execute.{SharedCalls, execute_shared_contract_v2}

-- The rule sink: the error of a write, and the reference of a row.
pub record RuleSink : Type 0 where
  pub write_rule : RunOutcome → Option String
  pub rule_ref : String → ResultRef

-- The enforcement object: the payload's options, and what only the issue carries as one text.
pub record EnforcementInput : Type 0 where
  pub options : JanusPayloadOptions
  pub others : String

pub record IssueIdentity : Type 0 where
  pub request_id : String
  pub correlation_id : String
  pub causation_id : String
  pub idempotency_key : String

-- The executors' calls; the switch of the upstream mode; the decoder of a persisted request; the rule
-- sink; the decoder of the enforcement object, SHA-256 with its prefix and the post of an issue, with
-- its error; the envelope's codec, the result sink's reference and the tables' names.
pub record Service : Type 0 where
  pub upstream : UpstreamCalls
  pub locator : LocatorCalls
  pub shared : SharedCalls
  pub upstream_input_mode : Bool
  pub decode_request : String → Option SubmitDefenseValidationRequest
  pub rule_sink : Option RuleSink
  pub decode_enforcement : String → Result String EnforcementInput
  pub digest : String → String
  pub post : CustomWafRule → EnforcementInput → IssueIdentity → Option String
  pub codec : Codec
  pub result_sink : Option (String → ResultRef)
  pub tables : TableNames

-- refs holds what `seen` does.
unfoldable pub add_refs : List String → List String → List String
add_refs refs [] = refs
add_refs refs (r ∷ rs) =
    add_refs (if str_eq r "" || contains r refs then refs else refs ++ r ∷ []) rs

unfoldable pub entries_refs : List String → List UpstreamInput → List String
unfolding add_refs
entries_refs refs [] = refs
entries_refs refs (e ∷ es) = entries_refs (add_refs refs e.evidence_refs) es

abbrev pub limited : RunOutcome → String → RunOutcome
limited out s = record out { limitations = out.limitations ++ s ∷ [] }

abbrev pub stepped : RunOutcome → String → RunOutcome
stepped out s = record out { steps = out.steps ++ s ∷ [] }

abbrev pub wrote : ResultRef → String
wrote ref = concat (
    "wrote rule to Databricks `" ∷ ref.catalog ∷ "`.`" ∷ ref.schema ∷ "`.`" ∷ ref.table
    ∷ "` where result_id=" ∷ ref.key ∷ [])

-- The rule as the issue's builder takes it.
abbrev pub issue_rule : (String → String) → CandidateSpec → CustomWafRule
issue_rule digest c = record {
  artifact_id = "";
  artifact_type = c.kind;
  candidate_id = c.rule_id;
  technology = c.engine;
  control_class = trim_suffix c.kind "-rule";
  content = c.rule;
  content_hash = digest c.rule;
  metadata = no_metadata;
}

abbrev pub issue_identity : RunOutcome → IssueIdentity
issue_identity out = record {
  request_id = out.request_id;
  correlation_id = out.correlation_id;
  causation_id = out.run_id;
  idempotency_key = out.result_id;
}

-- What is handed to PostEnforcementIssue.
pub record Handoff : Type 0 where
  pub rule : CustomWafRule
  pub input : EnforcementInput
  pub identity : IssueIdentity

module _ (s : Service) where
  unfoldable pub upstream_evidence_refs : String → List String
  unfolding entries_refs
  upstream_evidence_refs raw = elim (parse_upstream_inputs s.upstream (some raw)) [
    | err e ↦ []
    | ok entries ↦ entries_refs [] entries
  ]

  unfoldable pub resolve_requested_rule_input :
      SubmitDefenseValidationRequest → String → String → Option RunOutcome
  resolve_requested_rule_input req run_id result_id =
      if v2_locator_mode req
      then execute_shared_contract_v2 s.shared req run_id result_id
      else if locator_mode req
      then execute_scenario_by_locator s.locator req run_id result_id
      else if s.upstream_input_mode && is_some req.upstream_inputs
      then some (execute_scenario_upstream s.upstream req run_id result_id)
      else some (report_inline_candidate s.upstream req run_id result_id)

  -- The rule that an outcome reports.
  unfoldable pub reported_rule : RunOutcome → Option CandidateSpec
  reported_rule out = if str_eq out.terminal_state rule_resolved then out.candidate else none

  unfoldable pub persist_resolved_rule : RunOutcome → RunOutcome × Bool
  unfolding reported_rule
  persist_resolved_rule out = elim (reported_rule out) [
    | none ↦ (out, false)
    | some _ ↦ elim s.rule_sink [
      | none ↦ (
        limited out
            "The rule was not written to Databricks: no rule sink is configured (DATABRICKS_DSN/DATABRICKS_CATALOG).",
        false,
      )
      | some sink ↦ elim (sink.write_rule out) [
        | some e ↦ (
          limited out (append "The rule was reported but could not be written to Databricks: " e),
          false,
        )
        | none ↦ (stepped out (wrote (sink.rule_ref out.result_id)), true)
      ]
    ]
  ]

  unfoldable pub parse_enforcement_input : String → Result String EnforcementInput
  parse_enforcement_input raw = elim (s.decode_enforcement raw) [
    | err e ↦ err (append "enforcement: " e)
    | ok input ↦ if is_blank input.options.cve then err "enforcement.cve is required" else ok input
  ]

  -- The hand-off that is attempted, if one is, or the error of the enforcement object.
  unfoldable pub handoff :
      SubmitDefenseValidationRequest → RunOutcome → Bool → Option (Result String Handoff)
  unfolding reported_rule parse_enforcement_input
  handoff req out rule_written = elim (reported_rule out) [
    | none ↦ none
    | some c ↦ elim req.enforcement [
      | none ↦ none
      | some raw ↦ if not rule_written then none else elim (parse_enforcement_input raw) [
        | err e ↦ some (err e)
        | ok input ↦ some (
            ok (record {
              rule = issue_rule s.digest c;
              input = input;
              identity = issue_identity out;
            }))
      ]
    ]
  ]

  -- A hand-off is due, but the rule's row was not written.
  unfoldable pub is_withheld : SubmitDefenseValidationRequest → RunOutcome → Bool → Bool
  unfolding reported_rule
  is_withheld req out rule_written =
      is_some (reported_rule out) && is_some req.enforcement && not rule_written

  abbrev pub record_post_failure : RunOutcome → String → RunOutcome
  record_post_failure out e =
      limited out
        (append "The rule was resolved and written but no enforcement issue was posted: " e)

  unfoldable pub post_enforcement_issue :
      SubmitDefenseValidationRequest → RunOutcome → Bool → RunOutcome
  unfolding handoff is_withheld
  post_enforcement_issue req out rule_written =
      if is_withheld req out rule_written
      then limited out
          "No enforcement issue was posted: the rule row was not written, and an issue must not name a candidate that cannot be looked up."
      else elim (handoff req out rule_written) [
        | none ↦ out
        | some attempt ↦ elim attempt [
          | err e ↦ record_post_failure out e
          | ok h ↦ elim (s.post h.rule h.input h.identity) [
            | some e ↦ record_post_failure out e
            | none ↦
                stepped out (append "posted enforcement issue to XSIAM for " h.input.options.cve)
          ]
        ]
      ]

  unfoldable pub resolve_requested_rule :
      SubmitDefenseValidationRequest → String → String → Option RunOutcome
  unfolding resolve_requested_rule_input persist_resolved_rule post_enforcement_issue
  resolve_requested_rule req run_id result_id =
      elim (resolve_requested_rule_input req run_id result_id) [
        | none ↦ none
        | some out ↦
            let (out', written) = persist_resolved_rule out in
            some (post_enforcement_issue req out' written)
      ]

  abbrev pub with_inputs : Option String → RunOutcome → RunOutcome
  with_inputs none out = out
  with_inputs (some raw) out = record out {
    upstream_inputs = some raw;
    evidence_refs = some (upstream_evidence_refs raw);
  }

  -- The envelope before its integrity fields.
  unfoldable pub enveloped : Submission → Option String → ℕ → RunOutcome → RunOutcome
  unfolding enrich_envelope
  enveloped run inputs now out =
      record (enrich_envelope s.result_sink s.tables run.correlation_id (
        with_inputs inputs
          (record out { request_id = run.request_id; request_sha256 = run.request_digest }))) {
            created_at = now;
          }

  -- `none` is a panic.
  unfoldable pub execute_durable_run : Submission → ℕ → Option (Result String RunOutcome)
  unfolding resolve_requested_rule
  execute_durable_run run now = elim (s.decode_request run.request) [
    | none ↦ some (err "decode persisted request")
    | some req ↦ elim (resolve_requested_rule req run.run_id run.result_id) [
      | none ↦ none
      | some out ↦
          elim (set_canonical_integrity s.codec (enveloped run req.upstream_inputs now out)) [
            | none ↦ some (err "encode result")
            | some signed ↦ some (ok signed)
          ]
    ]
  ]
