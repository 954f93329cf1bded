-- ===== src/Service/Admission.antt =====
-- What an admitted request leads to (api/main.go: validate; api/lifecycle.go:
-- resolveRequestedRuleInput).
use test_defense_validation.Base.{
  ℕ, suc, ◌≡◌, refl, inl, inr, true, false, not, Option, none, some, String, List, [], ◌∷◌, ◌++◌,
  arith, Option-cases, Result-cases, Bool-cases, ok, is_some, str_eq, if◌then◌else◌,
}
use test_defense_validation.Text.{is_blank}
use test_defense_validation.Payload.Rules.{add_values, contains}
use test_defense_validation.Outcome.{RunOutcome, CandidateSpec}
use test_defense_validation.Resolve.Request.{
  ImmutableResultLocator, SubmitDefenseValidationRequest, locator_mode, v2_locator_mode,
}
use test_defense_validation.Resolve.Locator.{
  validate_locator_request, v2_complaints, validate_v2_locator_request, unique_strings,
}
use test_defense_validation.Resolve.Verified.{Ends, ReadFrom, upstream_verified}
use test_defense_validation.Resolve.Admitted.{bad_empty, valid_given, admitted_runs}
use test_defense_validation.Resolve.Upstream.{
  UpstreamCalls, UpstreamInput, parse_upstream_inputs, select_by_capability,
  execute_scenario_upstream, is_selected,
}
use test_defense_validation.Resolve.Durable.{Service, resolve_requested_rule_input}
use test_defense_validation.Resolve.Published.{resolved-Ends}
use test_defense_validation.Shared.Execute.{execute_shared_contract_v2}
use test_defense_validation.Service.Validate.{
  has_contract, names_row, validate_entries, validate_inputs, validate, validate_supplied,
  own_contract,
}

both_empty : (us vs : List String) → us ++ vs ≡ [] → us ≡ []
both_empty [] vs h = refl
both_empty (u ∷ us) vs h = cc

-- Without repetition an empty list is left only of an empty one.
added_empty : (vs ss : List String) → add_values vs ss ≡ [] → vs ≡ []
unfolding add_values
added_empty vs [] h = h
added_empty vs (s ∷ ss) h = elim (Bool-cases (contains s vs)) [
  | inl old ↦ added_empty vs ss (ground (arith, old))
  | inr new ↦ both_empty vs (s ∷ []) (added_empty (vs ++ s ∷ []) ss (ground (arith, new)))
]

unique_empty : (ss : List String) → unique_strings ss ≡ [] → ss ≡ []
unfolding unique_strings add_values
unique_empty [] h = refl
unique_empty (s ∷ ss) h = let one : s ∷ [] ≡ [] = added_empty (s ∷ []) ss h in cc

v2_given :
    (parse_time : String → Option ℕ) (req : SubmitDefenseValidationRequest)
    → v2_complaints parse_time req ≡ []
    → ((d : ImmutableResultLocator) × (req.defense_result ≡ some d))
      × ((c : ImmutableResultLocator) × (req.check_result ≡ some c))
unfolding v2_complaints
v2_given parse_time req h =
    let (_, r1) =
      bad_empty (not (str_eq req.route_policy "shared-attack-contracts-v2")) "route_policy" _ h in
    let (_, r2) = bad_empty _ _ _ r1 in
    let (d, r3) = bad_empty _ _ _ r2 in
    let (c, _) = bad_empty _ _ _ r3 in
    let (defense, given, _) = valid_given _ req.defense_result d in
    let (check, given', _) = valid_given _ req.check_result c in ((defense, given), (check, given'))

-- In the shared contract's mode both locators are there.
admitted_v2 :
    (parse_time : String → Option ℕ) (req : SubmitDefenseValidationRequest)
    → validate_v2_locator_request parse_time req ≡ []
    → ((d : ImmutableResultLocator) × (req.defense_result ≡ some d))
      × ((c : ImmutableResultLocator) × (req.check_result ≡ some c))
unfolding validate_v2_locator_request
admitted_v2 parse_time req h =
    v2_given parse_time req (unique_empty (v2_complaints parse_time req) h)

fields_admitted :
    (calls : UpstreamCalls) (parse_time : String → Option ℕ) (at_index : ℕ → String)
    (req : SubmitDefenseValidationRequest)
    → validate calls parse_time at_index req ≡ []
    → (if v2_locator_mode req
        then validate_v2_locator_request parse_time req
        else if locator_mode req
        then validate_locator_request parse_time req
        else validate_supplied calls parse_time at_index req)
      ≡ []
unfolding validate
fields_admitted calls parse_time at_index req h =
    (bad_empty (not (str_eq req.contract_id own_contract)) "contract_id" _ h).1

module _ (s : Service) (at_index : ℕ → String) (req : SubmitDefenseValidationRequest)
    (run_id result_id : String) where
  v2_runs :
      (d c : ImmutableResultLocator)
      → req.defense_result ≡ some d
      → req.check_result ≡ some c
      → is_some (execute_shared_contract_v2 s.shared req run_id result_id) ≡ true
  unfolding execute_shared_contract_v2
  v2_runs d c g g' = elim (Option-cases s.shared.unmade) [
    | inr (e, unmade) ↦ ground (arith, unmade)
    | inl made ↦ elim (Result-cases (s.shared.resolve_v2 d c)) [
      | inr (e, refused) ↦ ground (arith, made, g, g', refused)
      | inl (r, found) ↦ ground (arith, made, g, g', found)
    ]
  ]

  input_resolved :
      validate s.upstream s.locator.rows.parse_time at_index req ≡ []
      → is_some (resolve_requested_rule_input s req run_id result_id) ≡ true
  unfolding resolve_requested_rule_input
  input_resolved h =
      let rest = fields_admitted s.upstream s.locator.rows.parse_time at_index req h in
      elim (Bool-cases (v2_locator_mode req)) [
        | inl v2 ↦
            let ((d, g), (c, g')) =
              admitted_v2 s.locator.rows.parse_time req (ground (arith, v2, rest)) in
            rw v2 (v2_runs d c g g')
        | inr old ↦ elim (Bool-cases (locator_mode req)) [
          | inl located ↦
              let (out, runs, _) =
                admitted_runs s.locator req run_id result_id (ground (arith, old, located, rest)) in
              ground (arith, old, located, runs)
          | inr free ↦ ground (arith, old, free)
        ]
      ]

  -- A request that validate admits is resolved to an outcome of its run, in every mode: no executor
  -- reads a locator that is not there.
  pub admitted_resolved :
      validate s.upstream s.locator.rows.parse_time at_index req ≡ []
      → (out : RunOutcome) × (resolve_requested_rule_input s req run_id result_id ≡ some out)
        × Ends run_id result_id out
  admitted_resolved h = elim (Option-cases (resolve_requested_rule_input s req run_id result_id)) [
    | inl missing ↦ absurd (ground (arith, missing, input_resolved h))
    | inr (out, found) ↦ (out, found, resolved-Ends s req run_id result_id out found)
  ]

-- What is read of an admitted request's upstream inputs.
module _ (calls : UpstreamCalls) (parse_time : String → Option ℕ) (at_index : ℕ → String) where
  selected_named :
      (i : ℕ) (entries : List UpstreamInput) (entry : UpstreamInput)
      → validate_entries calls parse_time at_index i entries ≡ []
      → select_by_capability "control-translation" entries ≡ some entry
      → (has_contract entry ≡ true) × (names_row entry ≡ true)
  unfolding validate_entries select_by_capability
  selected_named i [] entry h e = absurd (ground arith)
  selected_named i (first ∷ entries) entry h e =
      let (contract, r1) = bad_empty (not (has_contract first)) (at_index i) _ h in
      let (row, r2) = bad_empty (not (names_row first)) _ _ r1 in
      elim (Bool-cases (is_selected "control-translation" first)) [
        | inl selected ↦
            let same : first ≡ entry = ground (arith, selected) in
            rw (← same) (ground (arith, contract), ground (arith, row))
        | inr other ↦ selected_named (suc i) entries entry r2 (ground (arith, other))
      ]

  admitted_entries :
      (inputs : Option String) (entries : List UpstreamInput)
      → validate_inputs calls parse_time at_index inputs ≡ []
      → parse_upstream_inputs calls inputs ≡ ok entries
      → validate_entries calls parse_time at_index 0 entries ≡ []
  unfolding validate_inputs parse_upstream_inputs
  admitted_entries none entries h parsed = absurd (ground arith)
  admitted_entries (some raw) entries h parsed = ground (arith, parsed)

  -- Outside the locator modes.
  supplied_admitted :
      (req : SubmitDefenseValidationRequest)
      → validate_supplied calls parse_time at_index req ≡ []
      → (is_blank req.candidate_artifact_id ≡ false)
        × (is_blank req.test_basis_id ≡ false)
        × (is_blank req.check_profile_id ≡ false)
        × (validate_inputs calls parse_time at_index req.upstream_inputs ≡ [])
  unfolding validate_supplied
  supplied_admitted req h =
      let (artifact, r1) = bad_empty (is_blank req.candidate_artifact_id) _ _ h in
      let (basis, r2) = bad_empty (is_blank req.test_basis_id) _ _ r1 in
      let (profile, r3) = bad_empty (is_blank req.check_profile_id) _ _ r2 in
      (artifact, basis, profile, both_empty _ _ r3)

  -- A rule that is reported from the upstream inputs of an admitted request, outside the locator
  -- modes, was read from the row of a Databricks table whose key is the result id of the entry, and
  -- the request names a candidate artifact, a test basis and a check profile besides.
  pub admitted_upstream :
      (req : SubmitDefenseValidationRequest) (run_id result_id : String) (cand : CandidateSpec)
      → validate calls parse_time at_index req ≡ []
      → v2_locator_mode req ≡ false
      → locator_mode req ≡ false
      → (execute_scenario_upstream calls req run_id result_id).candidate ≡ some cand
      → ((r : ReadFrom calls req cand) × ((has_contract (r.1) ≡ true) × (names_row (r.1) ≡ true)))
        × (is_blank req.candidate_artifact_id ≡ false)
        × (is_blank req.test_basis_id ≡ false)
        × (is_blank req.check_profile_id ≡ false)
  admitted_upstream req run_id result_id cand h old free found =
      let read = upstream_verified calls req run_id result_id cand found in
      let (entries, entry, _, _, _, parsed, selected, _, _, _, _, _) = read in
      let rest = fields_admitted calls parse_time at_index req h in
      let (artifact, basis, profile, inputs) =
        supplied_admitted req (ground (arith, old, free, rest)) in
      let listed = admitted_entries req.upstream_inputs entries inputs parsed in
      let (contract, row) = selected_named 0 entries entry listed selected in
      ((read, (contract, row)), artifact, basis, profile)
