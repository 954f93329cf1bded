-- ===== src/Resolve/Locate.antt =====
-- The executor of reference-only requests (api/executor_locator.go: Resolve,
-- executeScenarioByLocator).
use Prim.Native.String.{◌++◌ as append}
use test_defense_validation.Base.{
  not, Option, none, some, String, str_eq, List, [], ◌∷◌, if◌then◌else◌, Result, ok, err,
}
use test_defense_validation.Text.Strings.{concat}
use test_defense_validation.Outcome.{RunOutcome, CandidateSpec}
use test_defense_validation.Resolve.Report.{resolution_failed, report_resolved_rule, base_outcome}
use test_defense_validation.Resolve.Request.{ImmutableResultLocator, SubmitDefenseValidationRequest}
use test_defense_validation.Resolve.Locator.{validate_immutable_locator}
use test_defense_validation.Resolve.Rows.{
  DefenseRow, CheckRow, RowCalls, verify_defense_row, stable_string_union,
}
use test_defense_validation.Resolve.CheckRow.{verify_check_row}

pub record LocatorProvenance : Type 0 where
  pub route_policy : String
  pub defense_result : ImmutableResultLocator
  pub check_result : ImmutableResultLocator
  pub verification : String

pub record ResolvedLocatorInputs : Type 0 where
  pub candidate : CandidateSpec
  pub provenance : LocatorProvenance
  pub evidence_refs : List String

-- The row source: the rows with a result id, at most two, or an error's text; the error of
-- making the resolver; and the text of a provenance in the envelope.
pub record LocatorCalls : Type 0 where
  pub rows : RowCalls
  pub unmade : Option String
  pub defense : String → Result String (List DefenseRow)
  pub check : String → Result String (List CheckRow)
  pub show_provenance : LocatorProvenance → String

abbrev pub locator_provenance : ImmutableResultLocator → ImmutableResultLocator → LocatorProvenance
locator_provenance defense check = record {
  route_policy = "registered-waf-route-v1";
  defense_result = defense;
  check_result = check;
  verification = "physical-and-logical-sha256-verified";
}

-- len(rows) != 1 is an error.
unfoldable pub only {ℓ} : {A : Type ℓ} → List A → Option A
only [] = none
only (a ∷ []) = some a
only (a ∷ b ∷ as') = none

module _ (calls : LocatorCalls) where
  unfoldable pub only_row {ℓ} : {A : Type ℓ} → Result String (List A) → String → Result String A
  unfolding only
  only_row rows producer = elim rows [
    | err e ↦ err (concat ("query " ∷ producer ∷ " row: " ∷ e ∷ []))
    | ok found ↦ elim (only found) [
      | none ↦ err (append producer " locator resolved other than exactly one row")
      | some row ↦ ok row
    ]
  ]

  unfoldable pub resolve_check :
      ImmutableResultLocator
      → ImmutableResultLocator
      → CandidateSpec
      → List String
      → Result String ResolvedLocatorInputs
  unfolding only_row
  resolve_check defense check candidate evidence =
      elim (only_row (calls.check check.result_id) "Check Generation") [
        | err e ↦ err e
        | ok row ↦ elim (verify_check_row calls.rows row check) [
          | err e ↦ err e
          | ok (raw, check_evidence) ↦ ok (record {
            candidate = candidate;
            provenance = locator_provenance defense check;
            evidence_refs = stable_string_union evidence check_evidence;
          })
        ]
      ]

  unfoldable pub resolve_rows :
      ImmutableResultLocator → ImmutableResultLocator → Result String ResolvedLocatorInputs
  unfolding only_row resolve_check
  resolve_rows defense check =
      elim (only_row (calls.defense defense.result_id) "Defense Generation") [
        | err e ↦ err e
        | ok row ↦ elim (verify_defense_row calls.rows row defense) [
          | err e ↦ err e
          | ok (candidate, evidence) ↦ resolve_check defense check candidate evidence
        ]
      ]

  unfoldable pub resolve :
      ImmutableResultLocator → ImmutableResultLocator → Result String ResolvedLocatorInputs
  unfolding resolve_rows
  resolve defense check =
      elim (validate_immutable_locator calls.rows.parse_time defense "defense-generation") [
        | some e ↦ err (append "defense_result: " e)
        | none ↦ elim (validate_immutable_locator calls.rows.parse_time check "check-generation") [
          | some e ↦ err (append "check_result: " e)
          | none ↦
              if not (str_eq defense.correlation_id check.correlation_id)
              then err "producer correlation identities differ"
              else resolve_rows defense check
        ]
      ]

  abbrev pub reported_locator : RunOutcome → ResolvedLocatorInputs → RunOutcome
  reported_locator base r =
      let out =
        report_resolved_rule base r.candidate "defense-generation" (
          append "the verified Defense Generation result " r.provenance.defense_result.result_id) in
      record out {
        input_provenance = some (calls.show_provenance r.provenance);
        evidence_refs = some r.evidence_refs;
        steps = "verified immutable Defense Generation and Check Generation locators" ∷ out.steps;
      }

  -- The handler admits a request in this mode only with both locators; without one the Go code
  -- panics, which is `none`.
  unfoldable pub execute_scenario_by_locator :
      SubmitDefenseValidationRequest → String → String → Option RunOutcome
  unfolding resolve
  execute_scenario_by_locator req run_id result_id =
      let base = base_outcome run_id result_id "" in
      elim calls.unmade [
        | some e ↦ some (resolution_failed base (append "reference-only input resolver: " e))
        | none ↦ elim req.defense_result [
          | none ↦ none
          | some defense ↦ elim req.check_result [
            | none ↦ none
            | some check ↦ elim (resolve defense check) [
              | err e ↦
                  some
                    (resolution_failed base (append "reference-only input resolution failed: " e))
              | ok r ↦ some (reported_locator base r)
            ]
          ]
        ]
      ]
