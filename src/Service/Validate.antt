-- ===== src/Service/Validate.antt =====
-- The validation of a request's fields (api/main.go: validate).
use Prim.Native.String.{◌++◌ as append}
use test_defense_validation.Base.{
  ℕ, suc, Bool, not, ◌||◌, Option, none, some, String, str_eq, List, [], ◌∷◌, ◌++◌, if◌then◌else◌,
  ok, err,
}
use test_defense_validation.Text.{is_blank}
use test_defense_validation.Outcome.{CandidateSpec}
use test_defense_validation.Resolve.Request.{
  SubmitDefenseValidationRequest, locator_mode, v2_locator_mode,
}
use test_defense_validation.Resolve.Locator.{
  bad, validate_locator_request, validate_v2_locator_request,
}
use test_defense_validation.Resolve.Upstream.{UpstreamCalls, UpstreamInput, parse_upstream_inputs}

abbrev pub own_contract : String
own_contract = "defense-validation@1.0"

-- Whether an entry says what it is, and whether its reference names a row.
unfoldable pub has_contract : UpstreamInput → Bool
has_contract e = not (is_blank e.capability || is_blank e.contract_id)

unfoldable pub names_row : UpstreamInput → Bool
names_row e =
    let ref = e.result_ref in
    not (
      not (str_eq ref.system "databricks")
      || is_blank ref.catalog
      || is_blank ref.schema
      || is_blank ref.table
      || is_blank ref.key
      || not (str_eq ref.key e.result_id))

unfoldable pub validate_candidate : CandidateSpec → List String
validate_candidate c =
    bad (str_eq c.kind "") "candidate.kind" ++ bad (is_blank c.rule) "candidate.rule"

-- `at_index` is fmt.Sprintf("upstream_inputs[%d]", i).
module _ (calls : UpstreamCalls) (parse_time : String → Option ℕ) (at_index : ℕ → String) where
  unfoldable pub validate_entries : ℕ → List UpstreamInput → List String
  unfolding has_contract names_row
  validate_entries i [] = []
  validate_entries i (e ∷ es) =
      bad (not (has_contract e)) (at_index i)
      ++ (bad (not (names_row e)) (append (at_index i) ".result_ref")
          ++ validate_entries (suc i) es)

  unfoldable pub validate_inputs : Option String → List String
  unfolding validate_entries
  validate_inputs none = []
  validate_inputs (some raw) = elim (parse_upstream_inputs calls (some raw)) [
    | err e ↦ "upstream_inputs" ∷ []
    | ok entries ↦ validate_entries 0 entries
  ]

  unfoldable pub validate_inline : Option String → List String
  unfolding validate_candidate
  validate_inline none = []
  validate_inline (some raw) = elim (calls.decode_candidate raw) [
    | err e ↦ "candidate" ∷ []
    | ok c ↦ validate_candidate c
  ]

  -- In no locator mode.
  unfoldable pub validate_supplied : SubmitDefenseValidationRequest → List String
  unfolding validate_inputs validate_inline
  validate_supplied req =
      bad (is_blank req.candidate_artifact_id) "candidate_artifact_id"
      ++ (bad (is_blank req.test_basis_id) "test_basis_id"
          ++ (bad (is_blank req.check_profile_id) "check_profile_id"
              ++ (validate_inputs req.upstream_inputs ++ validate_inline req.candidate)))

  -- The names of the offending fields.
  unfoldable pub validate : SubmitDefenseValidationRequest → List String
  unfolding validate_supplied
  validate req =
      bad (not (str_eq req.contract_id own_contract)) "contract_id"
      ++ (if v2_locator_mode req
          then validate_v2_locator_request parse_time req
          else if locator_mode req
          then validate_locator_request parse_time req
          else validate_supplied req)
