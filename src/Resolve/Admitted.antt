-- ===== src/Resolve/Admitted.antt =====
-- The executor of reference-only requests on requests that the handler admits.
use Prim.Native.String.{◌++◌ as append}
use test_defense_validation.Base.{
  ℕ, ◌≡◌, inl, inr, refl, Bool, true, false, Option, none, some, String, List, [], arith,
  Option-cases, Result-cases, ◌++◌, not,
}
use test_defense_validation.Outcome.{RunOutcome, CandidateSpec}
use test_defense_validation.Resolve.Request.{ImmutableResultLocator, SubmitDefenseValidationRequest}
use test_defense_validation.Resolve.Locator.{
  validate_immutable_locator, validate_locator_request, bad, is_valid,
}
use test_defense_validation.Resolve.Report.{base_outcome, resolution_failed, report_resolved_rule}
use test_defense_validation.Resolve.Verified.{Ends, resolution_failed-Ends, failed_candidate}
use test_defense_validation.Resolve.Locate.{
  LocatorCalls, ResolvedLocatorInputs, resolve, execute_scenario_by_locator, reported_locator,
}
use test_defense_validation.Resolve.Located.{Stands, execute_by-LocatorCases}

-- A concatenation of complaints is empty only if each is.
pub bad_empty :
    (fails : Bool) (name : String) (rest : List String)
    → bad fails name ++ rest ≡ []
    → (fails ≡ false) × (rest ≡ [])
bad_empty true name rest h = cc
bad_empty false name rest h = (refl, h)

pub valid_given :
    (check : ImmutableResultLocator → Option String) (l : Option ImmutableResultLocator)
    → not (is_valid check l) ≡ false
    → (found : ImmutableResultLocator) × (l ≡ some found) × (check found ≡ none)
valid_given check none h = cc
valid_given check (some l) h = elim (Option-cases (check l)) [
  | inl fine ↦ (l, refl, fine)
  | inr (e, bad) ↦ absurd (ground (arith, bad))
]

pub admitted_locators :
    (parse_time : String → Option ℕ) (req : SubmitDefenseValidationRequest)
    → validate_locator_request parse_time req ≡ []
    → ((d : ImmutableResultLocator) × (req.defense_result ≡ some d)
        × (validate_immutable_locator parse_time d "defense-generation" ≡ none))
      × ((c : ImmutableResultLocator) × (req.check_result ≡ some c)
          × (validate_immutable_locator parse_time c "check-generation" ≡ none))
unfolding validate_locator_request
admitted_locators parse_time req h =
    let (_, r1) = bad_empty _ _ _ h in
    let (d, r2) = bad_empty _ _ _ r1 in
    let (c, r3) = bad_empty _ _ _ r2 in
    (valid_given _ req.defense_result d, valid_given _ req.check_result c)

module _ (calls : LocatorCalls) where
  reported_locator-Ends :
      (run_id result_id : String) (r : ResolvedLocatorInputs)
      → Ends run_id result_id (reported_locator calls (base_outcome run_id result_id "") r)
  unfolding report_resolved_rule
  reported_locator-Ends run_id result_id r = (refl, refl, refl, refl, inl (refl, r.candidate, refl))

  reported_locator_candidate :
      (out base : RunOutcome) (r : ResolvedLocatorInputs) (cand : CandidateSpec)
      → out ≡ reported_locator calls base r
      → out.candidate ≡ some cand
      → r.candidate ≡ cand
  unfolding report_resolved_rule
  reported_locator_candidate out base r cand e h = ground arith

  -- A request that the handler admits in this mode is executed: the executor does not read a locator
  -- that is not there.
  pub admitted_runs :
      (req : SubmitDefenseValidationRequest) (run_id result_id : String)
      → validate_locator_request calls.rows.parse_time req ≡ []
      → (out : RunOutcome) × (execute_scenario_by_locator calls req run_id result_id ≡ some out)
        × Ends run_id result_id out
  unfolding execute_scenario_by_locator
  admitted_runs req run_id result_id h =
      let ((d, given, _), (c, given', _)) = admitted_locators calls.rows.parse_time req h in
      elim (Option-cases calls.unmade) [
        | inr (e, unmade) ↦ (
          resolution_failed (base_outcome run_id result_id "")
              (append "reference-only input resolver: " e),
          ground (arith, unmade),
          resolution_failed-Ends run_id result_id "" _,
        )
        | inl made ↦ elim (Result-cases (resolve calls d c)) [
          | inr (e, refused) ↦ (
            resolution_failed (base_outcome run_id result_id "")
                (append "reference-only input resolution failed: " e),
            ground (arith, made, given, given', refused),
            resolution_failed-Ends run_id result_id "" _,
          )
          | inl (r, found) ↦ (
            reported_locator calls (base_outcome run_id result_id "") r,
            ground (arith, made, given, given', found),
            reported_locator-Ends run_id result_id r,
          )
        ]
      ]

  pub execute_by_locator-Ends :
      (req : SubmitDefenseValidationRequest) (run_id result_id : String) (out : RunOutcome)
      → execute_scenario_by_locator calls req run_id result_id ≡ some out
      → Ends run_id result_id out
  execute_by_locator-Ends req run_id result_id out h =
      elim (execute_by-LocatorCases calls req run_id result_id out h) [
        | inl (reason, e) ↦ rw e (resolution_failed-Ends run_id result_id "" reason)
        | inr (_, _, r, _, _, _, e) ↦ rw e (reported_locator-Ends run_id result_id r)
      ]

  -- A rule that is reported by locator is the content of the candidate of the one Defense Generation
  -- row with the locator's result id: the result in that row has the locator's identity, the digest
  -- and the size of its unsigned bytes are those that the locator pins, and the content has the hash
  -- that the result declares; and the one Check Generation row is verified as its lineage.
  pub locator_verified :
      (req : SubmitDefenseValidationRequest) (run_id result_id : String) (out : RunOutcome)
      (cand : CandidateSpec)
      → execute_scenario_by_locator calls req run_id result_id ≡ some out
      → out.candidate ≡ some cand
      → (defense : ImmutableResultLocator) × (check : ImmutableResultLocator)
        × (r : ResolvedLocatorInputs) × (req.defense_result ≡ some defense)
        × (req.check_result ≡ some check)
        × (r.candidate ≡ cand)
        × Stands calls defense check r
  locator_verified req run_id result_id out cand h k =
      elim (execute_by-LocatorCases calls req run_id result_id out h) [
        | inl (reason, e) ↦
            absurd (failed_candidate _ (base_outcome run_id result_id "") reason cand refl e k)
        | inr (defense, check, r, d, c, stands, e) ↦
            (defense, check, r, d, c, reported_locator_candidate out _ r cand e k, stands)
      ]
