-- ===== src/Resolve/Locator.antt =====
-- The validation of immutable result locators and of the requests that carry them
-- (api/executor_locator.go: validateImmutableLocator, validateLocatorRequest, validSHA256;
-- api/shared_contract_v2.go: validateV2LocatorRequest, validateSharedV2CheckLocator,
-- uniqueStrings).

use Prim.Native.String.{◌++◌ as append, len}
use test_defense_validation.Base.{
  ℕ, ◌*◌, ◌%◌, Bool, true, false, not, ◌&&◌, ◌||◌, Option, none, some, String, str_eq, List, [],
  ◌∷◌, ◌++◌, if◌then◌else◌, is_some, leb, ltb, ◌==◌, length,
}
use test_defense_validation.Text.{codes}
use test_defense_validation.Payload.Rules.{add_values}
use test_defense_validation.Text.Strings.{after_prefix, to_lower, starts}
use test_defense_validation.Resolve.Request.{
  ImmutableResultLocator, SubmitDefenseValidationRequest, has_inline_upstream,
}

-- hex.DecodeString succeeds.
unfoldable pub is_hex : List ℕ → Bool
is_hex [] = true
is_hex (c ∷ cs) =
    (leb b'0' c && leb c b'9' || leb b'a' c && leb c b'f' || leb b'A' c && leb c b'F') && is_hex cs

unfoldable pub valid_sha256 : String → Bool
unfolding after_prefix is_hex to_lower
valid_sha256 value = elim (after_prefix "sha256:" value) [
  | none ↦ false
  | some digits ↦
      len value == 71
      && is_hex (codes digits)
      && length (codes digits) % 2 == 0
      && str_eq value (to_lower value)
]

abbrev pub max_locator_payload_bytes : ℕ
max_locator_payload_bytes = 200 * 1048576

abbrev pub locator_catalog : String
locator_catalog = "36889_janus_dev"

-- What a producer's locators must say.
pub record Producer : Type 0 where
  pub capability : String
  pub contract : String
  pub schema : String
  pub table : String
  pub terminal : String

abbrev pub defense_generation : Producer
defense_generation = record {
  capability = "defense-generation";
  contract = "defense-generation-result@1.0";
  schema = "defense_generation";
  table = "defense_generation_results";
  terminal = "candidate-produced";
}

abbrev pub check_generation : Producer
check_generation = record {
  capability = "check-generation";
  contract = "check-generation-result@1.0";
  schema = "check_generation";
  table = "check_generation_results";
  terminal = "completed";
}

unfoldable pub producer_of : String → Option Producer
producer_of capability =
    if str_eq capability "defense-generation"
    then some defense_generation
    else if str_eq capability "check-generation"
    then some check_generation
    else none

unfoldable pub same_identity : ImmutableResultLocator → Producer → Bool
same_identity l p =
    str_eq l.capability p.capability
    && str_eq l.contract_id p.contract
    && not (str_eq l.request_id "")
    && not (str_eq l.correlation_id "")
    && not (str_eq l.run_id "")
    && not (str_eq l.result_id "")
    && str_eq l.status "completed"
    && str_eq l.terminal_state p.terminal

unfoldable pub result_id_fits : ImmutableResultLocator → String → Bool
unfolding starts
result_id_fits l capability =
    if str_eq capability "defense-generation"
    then starts (codes "defense-generation-result:") (codes l.result_id)
    else str_eq l.result_id (append "check-generation-result:" l.run_id)

unfoldable pub is_allowlisted : ImmutableResultLocator → Producer → Bool
is_allowlisted l p =
    str_eq l.result_ref.system "databricks"
    && str_eq l.result_ref.catalog locator_catalog
    && str_eq l.result_ref.schema p.schema
    && str_eq l.result_ref.table p.table
    && str_eq l.result_ref.key l.result_id

-- A field is named if its test fails.
abbrev pub bad : Bool → String → List String
bad fails field = if fails then field ∷ [] else []

abbrev pub is_valid :
    (ImmutableResultLocator → Option String) → Option ImmutableResultLocator → Bool
is_valid check none = false
is_valid check (some l) = not (is_some (check l))

abbrev pub differs : Option ImmutableResultLocator → Option ImmutableResultLocator → Bool
differs (some a) (some b) = not (str_eq a.correlation_id b.correlation_id)
differs (some a) none = false
differs none b = false

abbrev pub differs_from : Option ImmutableResultLocator → String → Bool
differs_from none id = false
differs_from (some a) id = not (str_eq a.correlation_id id)

unfoldable pub unique_strings : List String → List String
unfolding add_values
unique_strings ss = add_values [] ss

-- time.Parse with the layout RFC3339Nano is an argument; 0 is the zero time.
module _ (parse_time : String → Option ℕ) where
  unfoldable pub is_instant : String → Bool
  is_instant s = elim (parse_time s) [ none ↦ false | some t ↦ not (t == 0) ]

  unfoldable pub validate_producer : ImmutableResultLocator → Producer → Option String
  unfolding same_identity result_id_fits is_allowlisted valid_sha256 is_instant
  validate_producer l p =
      if not (same_identity l p)
      then some "locator identity is invalid"
      else if not (result_id_fits l p.capability)
      then some (
          if str_eq p.capability "defense-generation"
          then "Defense Generation result_id is invalid"
          else "Check Generation result_id does not derive from run_id")
      else if not (is_allowlisted l p)
      then some "locator result_ref is not allowlisted"
      else if not (valid_sha256 l.content_sha256)
          || ltb l.size_bytes 1
          || ltb max_locator_payload_bytes l.size_bytes
      then some "locator integrity metadata is invalid"
      else if not (is_instant l.created_at)
      then some "locator created_at is invalid"
      else none

  -- `none` is acceptance.
  unfoldable pub validate_immutable_locator : ImmutableResultLocator → String → Option String
  unfolding producer_of validate_producer
  validate_immutable_locator l capability = elim (producer_of capability) [
    | none ↦ some "unsupported capability"
    | some p ↦ validate_producer l p
  ]

  unfoldable pub validate_shared_v2_check_locator : ImmutableResultLocator → Option String
  unfolding validate_immutable_locator
  validate_shared_v2_check_locator l =
      if not (str_eq l.contract_id "check-generation@2.1")
      then some "shared-contract Check Generation locator contract is invalid"
      else validate_immutable_locator (record l { contract_id = "check-generation-result@1.0" })
          "check-generation"

  unfoldable pub validate_locator_request : SubmitDefenseValidationRequest → List String
  unfolding validate_immutable_locator has_inline_upstream
  validate_locator_request req =
      bad (not (str_eq req.route_policy "registered-waf-route-v1")) "route_policy"
      ++ (bad
            (not (
              is_valid (λ l. validate_immutable_locator l "defense-generation") req.defense_result))
            "defense_result"
          ++ (bad
                (not (
                  is_valid (λ l. validate_immutable_locator l "check-generation") req.check_result))
                "check_result"
              ++ (bad (differs req.defense_result req.check_result) "check_result.correlation_id"
                  ++ (bad (differs_from req.defense_result req.correlation_id)
                        "defense_result.correlation_id"
                      ++ (bad (not (str_eq req.candidate_artifact_id "")) "candidate_artifact_id"
                          ++ (bad (not (str_eq req.check_profile_id "")) "check_profile_id"
                              ++ (bad (not (str_eq req.profile_id "")) "profile_id"
                                  ++ (bad (is_some req.candidate) "candidate"
                                      ++ (bad (is_some req.upstream_inputs) "upstream_inputs"
                                          ++ bad (has_inline_upstream req)
                                              "inline_upstream_content")))))))))

  unfoldable pub v2_complaints : SubmitDefenseValidationRequest → List String
  unfolding validate_immutable_locator validate_shared_v2_check_locator has_inline_upstream
  v2_complaints req =
      bad (not (str_eq req.route_policy "shared-attack-contracts-v2")) "route_policy"
      ++ (bad
            (not (str_eq req.profile_id "waf-standard@2")
              && not (str_eq req.profile_id "waf-standard@1"))
            "profile_id"
          ++ (bad
                (not (
                  is_valid (λ l. validate_immutable_locator l "defense-generation")
                    req.defense_result))
                "defense_result"
              ++ (bad (not (is_valid validate_shared_v2_check_locator req.check_result))
                    "check_result"
                  ++ (bad (differs req.defense_result req.check_result)
                        "check_result.correlation_id"
                      ++ (bad (differs_from req.defense_result req.correlation_id)
                            "defense_result.correlation_id"
                          ++ (bad
                                (not (str_eq req.candidate_artifact_id "")
                                  || not (str_eq req.test_basis_id "")
                                  || not (str_eq req.check_profile_id "")
                                  || is_some req.candidate
                                  || is_some req.upstream_inputs)
                                "inline_content"
                              ++ bad (has_inline_upstream req) "inline_upstream_content"))))))

  unfoldable pub validate_v2_locator_request : SubmitDefenseValidationRequest → List String
  unfolding v2_complaints unique_strings
  validate_v2_locator_request req = unique_strings (v2_complaints req)
