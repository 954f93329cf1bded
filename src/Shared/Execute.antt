-- ===== src/Shared/Execute.antt =====
-- The executor of the shared contract (api/shared_contract_v2.go: executeSharedContractV2). The
-- resolver is an interface of the source, and a parameter here.
use Prim.Native.Char.{Char}
use Prim.Native.String.{◌++◌ as append}
use test_defense_validation.Base.{
  ◌≡◌, refl, inl, inr, Option, none, some, String, List, ◌∷◌, Result, ok, err, Option-cases,
  Result-cases, arith,
}
use test_defense_validation.Outcome.{RunOutcome, CandidateSpec}
use test_defense_validation.Resolve.Report.{resolution_failed, report_resolved_rule, base_outcome}
use test_defense_validation.Resolve.Verified.{Ends, resolution_failed-Ends}
use test_defense_validation.Resolve.Request.{ImmutableResultLocator, SubmitDefenseValidationRequest}
use test_defense_validation.Resolve.Locate.{LocatorProvenance}
use test_defense_validation.Shared.Unit.{
  SharedRuleDocument, SharedCarrierDocument, UnitBundle, AppliedApplicationUnit, UnitError,
  application_unit,
}

pub record SharedResolvedInputs : Type 0 where
  pub bundle : UnitBundle
  pub artifact_bytes : List (String × String)
  pub provenance : LocatorProvenance
  pub evidence_refs : List String

-- ResolveV2 and the error of making its resolver; unicode.ToLower outside ASCII; the decoders of the
-- two documents; and texts.
pub record SharedCalls : Type 0 where
  pub unmade : Option String
  pub resolve_v2 :
      ImmutableResultLocator → ImmutableResultLocator → Result String SharedResolvedInputs
  pub lower_other : Char → Char
  pub decode_rules : String → Option SharedRuleDocument
  pub decode_carriers : String → Option SharedCarrierDocument
  pub show_unit_error : UnitError → String
  pub show_provenance : LocatorProvenance → String
  pub show_unit : AppliedApplicationUnit → String

module _ (calls : SharedCalls) where
  abbrev pub reported_unit :
      RunOutcome → CandidateSpec → AppliedApplicationUnit → SharedResolvedInputs → RunOutcome
  reported_unit base cand applied r =
      let out =
        report_resolved_rule base cand "shared-contract v2"
          (append "the verified application unit " applied.application_unit_id) in
      record out {
        application_unit = some (calls.show_unit applied);
        input_provenance = some (calls.show_provenance r.provenance);
        evidence_refs = some r.evidence_refs;
        steps =
            "authenticated compact CG and DG locators"
            ∷ "verified embedded semantics and complete candidate bundle"
            ∷ "read back the complete application unit" ∷ out.steps;
      }

  unfoldable pub report_unit : RunOutcome → SharedResolvedInputs → RunOutcome
  report_unit base r =
      elim (application_unit calls.lower_other calls.decode_rules calls.decode_carriers r.bundle
        r.artifact_bytes) [
          | err e ↦
              resolution_failed base
                (append "application unit rejected: " (calls.show_unit_error e))
          | ok (cand, applied) ↦ reported_unit base cand applied r
        ]

  -- Without a locator the Go code panics, which is `none`.
  unfoldable pub execute_shared_contract_v2 :
      SubmitDefenseValidationRequest → String → String → Option RunOutcome
  unfolding report_unit
  execute_shared_contract_v2 req run_id result_id =
      let base = base_outcome run_id result_id req.profile_id in
      elim calls.unmade [
        | some e ↦ some (resolution_failed base (append "shared-contract resolver: " e))
        | none ↦ elim req.defense_result [
          | none ↦ none
          | some defense ↦ elim req.check_result [
            | none ↦ none
            | some check ↦ elim (calls.resolve_v2 defense check) [
              | err e ↦
                  some (resolution_failed base (append "shared-contract verification failed: " e))
              | ok r ↦ some (report_unit base r)
            ]
          ]
        ]
      ]

  report_unit-Ends :
      (run_id result_id profile_id : String) (r : SharedResolvedInputs)
      → Ends run_id result_id (report_unit (base_outcome run_id result_id profile_id) r)
  unfolding report_unit report_resolved_rule
  report_unit-Ends run_id result_id profile_id r =
      elim (Result-cases (
        application_unit calls.lower_other calls.decode_rules calls.decode_carriers r.bundle
          r.artifact_bytes)) [
            | inr (e, bad) ↦
                rw (bad, report_unit) (resolution_failed-Ends run_id result_id profile_id _)
            | inl ((cand, applied), good) ↦
                rw (good, report_unit) (refl, refl, refl, refl, inl (refl, cand, refl))
          ]

  pub execute_shared_contract_v2-Ends :
      (req : SubmitDefenseValidationRequest) (run_id result_id : String) (out : RunOutcome)
      → execute_shared_contract_v2 req run_id result_id ≡ some out
      → Ends run_id result_id out
  unfolding execute_shared_contract_v2
  execute_shared_contract_v2-Ends req run_id result_id out h = elim (Option-cases calls.unmade) [
    | inr (e, unmade) ↦
        let same : resolution_failed (base_outcome run_id result_id req.profile_id)
              (append "shared-contract resolver: " e)
            ≡ out =
          ground (arith, unmade) in
        rw (← same) (resolution_failed-Ends run_id result_id req.profile_id _)
    | inl made ↦ elim (Option-cases req.defense_result) [
      | inl missing ↦ absurd (ground (arith, made, missing))
      | inr (defense, d) ↦ elim (Option-cases req.check_result) [
        | inl missing ↦ absurd (ground (arith, made, d, missing))
        | inr (check, c) ↦ elim (Result-cases (calls.resolve_v2 defense check)) [
          | inr (e, bad) ↦
              let same : resolution_failed (base_outcome run_id result_id req.profile_id)
                    (append "shared-contract verification failed: " e)
                  ≡ out =
                ground (arith, made, d, c, bad) in
              rw (← same) (resolution_failed-Ends run_id result_id req.profile_id _)
          | inl (r, found) ↦
              let same : report_unit (base_outcome run_id result_id req.profile_id) r ≡ out =
                ground (arith, made, d, c, found) in
              rw (← same) (report_unit-Ends run_id result_id req.profile_id r)
        ]
      ]
    ]
  ]
