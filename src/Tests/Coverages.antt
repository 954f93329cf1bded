-- ===== src/Tests/Coverages.antt =====
-- Concrete runs of the coverage walk and of the readback of an application unit.
use test_defense_validation.Base.{
  ℕ, ◌≡◌, ◌≢◌, ◌↔◌, refl, true, Option, none, some, String, str_eq, List, [], ◌∷◌, ok, err,
  if◌then◌else◌,
}
use test_defense_validation.Outcome.{CandidateSpec}
use test_defense_validation.Payload.Rules.{contains, add_values}
use test_defense_validation.Json.{
  Value, Fields, text, array, object, no_elements, element, no_fields, field, at,
}
use test_defense_validation.Shared.{SharedTypedRef}
use test_defense_validation.Shared.Coverage.{
  Semantics, Required, shared_coverage_requirements, out_of_fuel, cycle, index_by, typed_refs,
}
use test_defense_validation.Shared.Coverage.Total.{coverage_ends}
use test_defense_validation.Shared.Coverage.Reach.{Requires, inputs}
use test_defense_validation.Shared.Coverage.Exact.{coverage_exact}
use test_defense_validation.Shared.Unit.{
  SharedRuleDefinition, SharedRuleDocument, SharedCarrierBinding, SharedCarrierDocument,
  SharedBundleArtifact, UnitBundle, AppliedApplicationUnit, application_unit, binding_key,
}
use test_defense_validation.Text.{eq_codes, lower_word}

-- A reference as an object.
abbrev ref : String → String → Value
ref kind id = object (field "kind" (text kind) (field "id" (text id) no_fields))

-- Of the scope "s".
abbrev decode_ref : Value → Option SharedTypedRef
decode_ref (object (field _ (text kind) (field _ (text id) no_fields))) =
    some (record { kind = kind; scope = "s"; id = id })
decode_ref _ = none

abbrev semantics : Value → Semantics
semantics other = record {
  semantics_id = "s";
  components =
      field "component_id" (text "c1") (
        field "input_refs"
          (array (element (ref "test-input" "i1") (element (ref "test-input" "i2") no_elements)))
          (field "source_member_refs" (array (element (ref "source-member" "m1") no_elements))
            no_fields))
      ∷ [];
  groups =
      field "group_id" (text "g1") (
        field "member_refs" (array (element (ref "component" "c1") (element other no_elements))) (
          field "source_member_refs" (array (element (ref "source-member" "m1") no_elements))
            no_fields))
      ∷ [];
}

abbrev root : SharedTypedRef
root = record { kind = "coverage-group"; scope = "s"; id = "g1" }

abbrev required : Required
required = record { inputs = "i1" ∷ "i2" ∷ []; members = "m1" ∷ [] }

covers :
    shared_coverage_requirements decode_ref root (semantics (ref "component" "c1")) ≡ ok required
unfolding shared_coverage_requirements add_values
covers = refl

finds_cycle :
    shared_coverage_requirements decode_ref root (semantics (ref "coverage-group" "g1")) ≡ err cycle
unfolding shared_coverage_requirements
finds_cycle = refl

coverage_ends_example :
    shared_coverage_requirements decode_ref root (semantics (ref "coverage-group" "g1"))
    ≢ err out_of_fuel
coverage_ends_example = coverage_ends decode_ref root (semantics (ref "coverage-group" "g1"))

coverage_exact_example :
    (components : List (String × Fields)) × (groups : List (String × Fields)) × (index_by
        "component_id" []
        (semantics (ref "component" "c1")).components
      ≡ some components)
    × (index_by "group_id" [] (semantics (ref "component" "c1")).groups ≡ some groups)
    × ((contains "i2" required.inputs ≡ true)
        ↔ Requires
            (λ f k. typed_refs decode_ref (at f k))
            (record { scope = "s"; components = components; groups = groups })
            "input_refs"
            root
            "i2")
coverage_exact_example =
    coverage_exact decode_ref root (semantics (ref "component" "c1")) required inputs "i2" covers

abbrev rule : String → String → SharedRuleDefinition
rule id component = record {
  rule_id = id;
  component_id = component;
  carrier = "header";
  name = "X-Name";
  others = "";
}

abbrev binding : String → SharedCarrierBinding
binding component = record { component_id = component; carrier = "header"; name = "x-name" }

abbrev document : List SharedRuleDefinition → SharedRuleDocument
document rules = record { rule_set_id = "rules-1"; action = "block"; rules = rules; others = "" }

abbrev carriers : SharedCarrierDocument
carriers = record { rule_set_id = "rules-1"; carrier_bindings = binding "c1" ∷ binding "c2" ∷ [] }

abbrev unit_artifact : String → ℕ → String → SharedBundleArtifact
unit_artifact id order kind = record {
  artifact_id = id;
  order = order;
  role = "";
  kind = kind;
  content = record { uri = ""; digest = ""; media_type = ""; byte_length = 0; immutable = true };
  application_group_ref = record { kind = "atomic-group"; scope = "b"; id = "g" };
  depends_on = [];
}

abbrev pub bundle : UnitBundle
bundle = record {
  candidate_id = "candidate-1";
  selected_control_class = "waf";
  artifacts =
      unit_artifact "a1" 0 "match-rule" ∷ unit_artifact "a2" 1 "configuration-fragment" ∷ [];
  application_unit_id = "unit-1";
  unit_refs =
      record { kind = "artifact"; scope = "b"; id = "a1" }
      ∷ record { kind = "artifact"; scope = "b"; id = "a2" }
      ∷ [];
}

abbrev pub contents : List (String × String)
contents = ("a1", "rules") ∷ ("a2", "carriers") ∷ []

abbrev pub decode_rules : List SharedRuleDefinition → String → Option SharedRuleDocument
decode_rules rules s = if str_eq s "rules" then some (document rules) else none

abbrev pub decode_carriers : String → Option SharedCarrierDocument
decode_carriers s = if str_eq s "carriers" then some carriers else none

abbrev unit_rule : CandidateSpec
unit_rule = record {
  kind = "waf-rule";
  engine = "janus-waf-rule-set";
  rule_id = "candidate-1";
  rule = "rules";
  action = "block";
}

abbrev applied : AppliedApplicationUnit
applied = record {
  application_unit_id = "unit-1";
  artifact_ids = "a1" ∷ "a2" ∷ [];
  readback_verified = true;
}

abbrev pub two_rules : List SharedRuleDefinition
two_rules = rule "r1" "c1" ∷ rule "r2" "c2" ∷ []

-- Two rules with one key: the binding of the second component is no rule's, and the unit is accepted.
reads_unused_binding :
    application_unit
      (λ c. c)
      (decode_rules (rule "r1" "c1" ∷ rule "r2" "c1" ∷ []))
      decode_carriers
      bundle
      contents
    ≡ ok (unit_rule, applied)
unfolding application_unit binding_key eq_codes lower_word
reads_unused_binding = refl
