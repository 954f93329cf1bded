-- ===== src/Shared/Unit.antt =====
-- The readback of an application unit (api/shared_contract_v2.go: sharedV2ApplicationUnit).
pub mod Complete
pub mod ReadBack
use Prim.Native.Char.{nul, Char}
use Prim.Native.String.{compare}
use text.Mathlib.Text.{is_lt}
use test_defense_validation.Base.{
  ℕ, Bool, true, not, ◌&&◌, Option, none, some, String, str_eq, List, [], ◌∷◌, if◌then◌else◌, ◌==◌,
  length, Result, ok, err, is_some,
}
use test_defense_validation.Text.{lower_word, eq_codes, codes}
use test_defense_validation.Text.Strings.{concat, to_lower, to_lower_by}
use test_defense_validation.Payload.Rules.{contains}
use test_defense_validation.Translation.{lookup}
use test_defense_validation.Outcome.{CandidateSpec}
use test_defense_validation.Shared.{SharedTypedRef}

pub record SharedRuleDefinition : Type 0 where
  pub rule_id : String
  pub component_id : String
  pub carrier : String
  pub name : String
  pub others : String

pub record SharedRuleDocument : Type 0 where
  pub rule_set_id : String
  pub action : String
  pub rules : List SharedRuleDefinition
  pub others : String

pub record SharedCarrierBinding : Type 0 where
  pub component_id : String
  pub carrier : String
  pub name : String

pub record SharedCarrierDocument : Type 0 where
  pub rule_set_id : String
  pub carrier_bindings : List SharedCarrierBinding

pub record SharedContentLocator : Type 0 where
  pub uri : String
  pub digest : String
  pub media_type : String
  pub byte_length : ℕ
  pub immutable : Bool

pub record SharedBundleArtifact : Type 0 where
  pub artifact_id : String
  pub order : ℕ
  pub role : String
  pub kind : String
  pub content : SharedContentLocator
  pub application_group_ref : SharedTypedRef
  pub depends_on : List SharedTypedRef

-- What the readback reads of a bundle.
pub record UnitBundle : Type 0 where
  pub candidate_id : String
  pub selected_control_class : String
  pub artifacts : List SharedBundleArtifact
  pub application_unit_id : String
  pub unit_refs : List SharedTypedRef

pub record AppliedApplicationUnit : Type 0 where
  pub application_unit_id : String
  pub artifact_ids : List String
  pub readback_verified : Bool

pub data UnitError : Type 0 where
  count_differs bad_match_rule bad_carriers not_complete duplicate_binding binding_differs :
      UnitError
  unsupported_kind : String → UnitError

abbrev nul_text : String
nul_text = String.◌∷◌ nul String.[]

unfoldable pub binding_key : (Char → Char) → String → String → String → String
unfolding to_lower_by
binding_key other component_id carrier name =
    concat (component_id ∷ nul_text ∷ carrier ∷ nul_text ∷ to_lower_by other name ∷ [])

abbrev pub rule_key : (Char → Char) → SharedRuleDefinition → String
rule_key other r = binding_key other r.component_id r.carrier r.name

abbrev pub carrier_key : (Char → Char) → SharedCarrierBinding → String
carrier_key other b = binding_key other b.component_id b.carrier b.name

-- for _, binding := range: the keys, unless one repeats.
unfoldable pub index_bindings :
    (Char → Char) → List String → List SharedCarrierBinding → Option (List String)
index_bindings other seen [] = some seen
index_bindings other seen (b ∷ bs) =
    let rest = index_bindings other (carrier_key other b ∷ seen) bs in
    if contains (carrier_key other b) seen then none else rest

unfoldable pub all_bound : (Char → Char) → List String → List SharedRuleDefinition → Bool
all_bound other bindings [] = true
all_bound other bindings (r ∷ rs) =
    contains (rule_key other r) bindings && all_bound other bindings rs

-- The loop's variables.
pub record Found : Type 0 where
  pub main : Option (SharedRuleDocument × String)
  pub carriers : Option SharedCarrierDocument
  pub artifact_ids : List String

unfoldable pub insert_text : String → List String → List String
insert_text s [] = s ∷ []
insert_text s (t ∷ ts) = if is_lt (compare s t) then s ∷ t ∷ ts else t ∷ insert_text s ts

-- sort.Strings.
unfoldable pub sort_texts : List String → List String
unfolding insert_text
sort_texts [] = []
sort_texts (s ∷ ss) = insert_text s (sort_texts ss)

unfoldable pub content_of : List (String × String) → SharedBundleArtifact → String
unfolding lookup
content_of contents a = elim (lookup a.artifact_id contents) [ none ↦ "" | some bytes ↦ bytes ]

abbrev pub unit_spec : UnitBundle → SharedRuleDocument → String → CandidateSpec
unit_spec b main bytes = record {
  kind =
      if eq_codes (lower_word b.selected_control_class) (codes "firewall")
      then "firewall-rule"
      else "waf-rule";
  engine = "janus-waf-rule-set";
  rule_id = b.candidate_id;
  rule = bytes;
  action = main.action;
}

unfoldable pub reads_back : SharedRuleDocument → SharedCarrierDocument → Bool
reads_back main carriers =
    str_eq main.action "block"
    && not (str_eq main.rule_set_id "")
    && str_eq main.rule_set_id carriers.rule_set_id
    && not (length main.rules == 0)
    && length main.rules == length carriers.carrier_bindings

unfoldable pub checked_unit :
    (Char → Char)
    → UnitBundle
    → SharedRuleDocument
    → String
    → SharedCarrierDocument
    → List String
    → Result UnitError (CandidateSpec × AppliedApplicationUnit)
unfolding reads_back index_bindings all_bound sort_texts
checked_unit other b main bytes carriers ids =
    if not (reads_back main carriers)
    then err not_complete
    else elim (index_bindings other [] carriers.carrier_bindings) [
      | none ↦ err duplicate_binding
      | some bindings ↦
          if not (all_bound other bindings main.rules)
          then err binding_differs
          else ok (
            unit_spec b main bytes,
            record {
              application_unit_id = b.application_unit_id;
              artifact_ids = sort_texts ids;
              readback_verified = true;
            },
          )
    ]

-- unicode.ToLower outside ASCII, and decodeStrictLoose on the two documents.
module _ (other : Char → Char) (decode_rules : String → Option SharedRuleDocument)
    (decode_carriers : String → Option SharedCarrierDocument) where
  unfoldable pub read_artifact :
      List (String × String) → Found → SharedBundleArtifact → Result UnitError Found
  unfolding content_of
  read_artifact contents f a =
      let bytes = content_of contents a in
      if str_eq a.kind "match-rule"
      then if is_some f.main then err bad_match_rule else elim (decode_rules bytes) [
        | none ↦ err bad_match_rule
        | some d ↦
            ok (record f { main = some (d, bytes); artifact_ids = a.artifact_id ∷ f.artifact_ids })
      ]
      else if str_eq a.kind "configuration-fragment"
      then if is_some f.carriers then err bad_carriers else elim (decode_carriers bytes) [
        | none ↦ err bad_carriers
        | some d ↦
            ok (record f { carriers = some d; artifact_ids = a.artifact_id ∷ f.artifact_ids })
      ]
      else err (unsupported_kind a.kind)

  unfoldable pub read_artifacts :
      List (String × String) → Found → List SharedBundleArtifact → Result UnitError Found
  unfolding read_artifact
  read_artifacts contents f [] = ok f
  read_artifacts contents f (a ∷ as') = elim (read_artifact contents f a) [
    | err e ↦ err e
    | ok f' ↦ read_artifacts contents f' as'
  ]

  unfoldable pub application_unit :
      UnitBundle
      → List (String × String)
      → Result UnitError (CandidateSpec × AppliedApplicationUnit)
  unfolding read_artifacts checked_unit
  application_unit b contents =
      if not (length b.unit_refs == length contents)
      then err count_differs
      else elim (read_artifacts contents
          (record { main = none; carriers = none; artifact_ids = [] }) b.artifacts) [
            | err e ↦ err e
            | ok f ↦ elim f.main [
              | none ↦ err not_complete
              | some (main, bytes) ↦ elim f.carriers [
                | none ↦ err not_complete
                | some carriers ↦ checked_unit other b main bytes carriers f.artifact_ids
              ]
            ]
          ]
