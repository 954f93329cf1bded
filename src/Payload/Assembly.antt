-- ===== src/Payload/Assembly.antt =====
-- The enforcement payload of a rule artifact (api/janus_payload.go: JanusPayloadFromCustomWAFRule,
-- api/xsiam_issue.go: the payload's types; api/control_translation.go:
-- CustomWAFRule).
use Prim.Native.String.{◌++◌ as append}
use test_defense_validation.Base.{
  ℕ, Bool, true, false, not, Option, none, some, String, str_eq, List, [], ◌∷◌, if◌then◌else◌,
  Result, ok, err,
}
use test_defense_validation.Text.{is_blank}
use test_defense_validation.Payload.Rules.{
  AkamaiAlternative, AkamaiRuleSet, JanusStructuredCondition, MergeError, merge_alternatives,
  policy_action_for,
}

-- The caller's options; version and rule id are not looked at.
pub record JanusPayloadOptions : Type 0 where
  pub cve : String
  pub policy_version : ℕ
  pub policy_id : String
  pub rule_id : ℕ
  pub control_instance_id : String
  pub protected_hostname : String
  pub target_scope_id : String
  pub expected_current_action : String
  pub expected_live_state_hash : String
  pub recovery_spec_ref : String

pub record SyntaxProfile : Type 0 where
  pub id : String
  pub family : String
  pub deployment_ready : Bool
  pub validation_level : String

pub record PolicyBinding : Type 0 where
  pub action : String
  pub attachment : String
  pub embedded_in_artifact : Bool
  pub requires_operator_review : Bool

pub record ControlCandidateMetadata : Type 0 where
  pub semantic_relationship : String
  pub syntax_profile : SyntaxProfile
  pub recommended_policy_binding : PolicyBinding

pub record CustomWafRule : Type 0 where
  pub artifact_id : String
  pub artifact_type : String
  pub candidate_id : String
  pub technology : String
  pub control_class : String
  pub content : String
  pub content_hash : String
  pub metadata : ControlCandidateMetadata

-- The zero value of the metadata.
abbrev pub no_metadata : ControlCandidateMetadata
no_metadata = record {
  semantic_relationship = "";
  syntax_profile = record { id = ""; family = ""; deployment_ready = false; validation_level = "" };
  recommended_policy_binding = record {
    action = "";
    attachment = "";
    embedded_in_artifact = false;
    requires_operator_review = false;
  };
}

pub record JanusStructuredRule : Type 0 where
  pub name : String
  pub operation : String
  pub structured : Bool
  pub conditions : List JanusStructuredCondition
  pub tag : List String

pub record JanusBinding : Type 0 where
  pub candidate_id : String
  pub candidate_revision : String
  pub candidate_digest : String
  pub realized_artifact_digest : String
  pub control_instance_id : String
  pub protected_hostname : String
  pub target_scope_id : String
  pub expected_live_state_hash : String
  pub recovery_spec_ref : String

pub record JanusPayload : Type 0 where
  pub artifact_schema : String
  pub operation : String
  pub version : ℕ
  pub policy_id : String
  pub rule_id : ℕ
  pub structured_rule : JanusStructuredRule
  pub expected_current_action : String
  pub desired_action : String
  pub janus_binding : JanusBinding

pub data PayloadRefusal : Type 0 where
  no_cve no_content not_a_rule_set no_rules not_encoded : PayloadRefusal
  unsupported_configuration : String → PayloadRefusal
  not_merged : MergeError → PayloadRefusal

-- firstNonEmpty of two texts.
abbrev pub first_non_empty : String → String → String
first_non_empty a b = if str_eq a "" then b else a

abbrev pub structured_rule_of : String → List JanusStructuredCondition → JanusStructuredRule
structured_rule_of cve merged = record {
  name = append "Janus-Block-" cve;
  operation = "AND";
  structured = true;
  conditions = merged;
  tag = "janus" ∷ cve ∷ [];
}

abbrev pub assembled :
    CustomWafRule
    → JanusPayloadOptions
    → AkamaiRuleSet
    → List JanusStructuredCondition
    → String
    → String
    → JanusPayload
assembled rule opts set merged action digest = record {
  artifact_schema = "akamai-appsec-compound-realization@0.2";
  operation = "set-policy-action";
  version = opts.policy_version;
  policy_id = opts.policy_id;
  rule_id = opts.rule_id;
  structured_rule = structured_rule_of opts.cve merged;
  expected_current_action = first_non_empty opts.expected_current_action "alert";
  desired_action = action;
  janus_binding = record {
    candidate_id = first_non_empty rule.candidate_id set.source_candidate_id;
    candidate_revision = "";
    candidate_digest = rule.content_hash;
    realized_artifact_digest = digest;
    control_instance_id = opts.control_instance_id;
    protected_hostname = opts.protected_hostname;
    target_scope_id = opts.target_scope_id;
    expected_live_state_hash = opts.expected_live_state_hash;
    recovery_spec_ref = opts.recovery_spec_ref;
  };
}

-- `parse` and `marshal` are encoding/json on the rule set and on the structured rule, `sha256` the
-- digest with its prefix.
module _ (parse : String → Option AkamaiRuleSet) (marshal : JanusStructuredRule → Option String)
    (sha256 : String → String) where
  unfoldable pub from_rules :
      CustomWafRule
      → JanusPayloadOptions
      → AkamaiRuleSet
      → AkamaiAlternative
      → List AkamaiAlternative
      → Result PayloadRefusal JanusPayload
  from_rules rule opts set base others =
      elim (merge_alternatives set.combination_operation base others) [
        | err e ↦ err (not_merged e)
        | ok merged ↦ elim (policy_action_for base others) [
          | err e ↦ err (not_merged e)
          | ok action ↦ elim (marshal (structured_rule_of opts.cve merged)) [
            | none ↦ err not_encoded
            | some realized ↦ ok (assembled rule opts set merged action (sha256 realized))
          ]
        ]
      ]

  unfoldable pub from_set :
      CustomWafRule → JanusPayloadOptions → AkamaiRuleSet → Result PayloadRefusal JanusPayload
  unfolding from_rules
  from_set rule opts set =
      if not (str_eq set.configuration_type "akamai-custom-rule-set")
      then err (unsupported_configuration set.configuration_type)
      else elim set.rules [
        | [] ↦ err no_rules
        | base ∷ others ↦ from_rules rule opts set base others
      ]

  unfoldable pub janus_payload :
      CustomWafRule → JanusPayloadOptions → Result PayloadRefusal JanusPayload
  unfolding from_set
  janus_payload rule opts =
      if is_blank opts.cve
      then err no_cve
      else if str_eq rule.content ""
      then err no_content
      else elim (parse rule.content) [
        | none ↦ err not_a_rule_set
        | some set ↦ from_set rule opts set
      ]
