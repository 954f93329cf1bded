-- ===== src/Shared/Unit/ReadBack.antt =====
-- The rule that an application unit reports (api/shared_contract_v2.go: sharedV2ApplicationUnit).
use Prim.Native.Char.{Char}
use test_defense_validation.Base.{
  ◌≡◌, ◌⊎◌, inl, inr, Option, none, some, String, str_eq, eq_iff, List, [], ◌∷◌, arith, ok,
  Option-cases, Bool-cases, ap, ◌∙◌, Result-cases,
}
use test_defense_validation.Outcome.{CandidateSpec}
use test_defense_validation.Shared.{IsIn, first, later}
use test_defense_validation.Shared.Unit.{
  SharedRuleDocument, SharedCarrierDocument, SharedBundleArtifact, UnitBundle,
  AppliedApplicationUnit, Found, read_artifact, read_artifacts, application_unit, unit_spec,
  content_of,
}
use test_defense_validation.Shared.Unit.Complete.{FitsTogether, checked_unit_sound}

module _ (other : Char → Char) (decode_rules : String → Option SharedRuleDocument)
    (decode_carriers : String → Option SharedCarrierDocument)
    (contents : List (String × String)) where
  -- The rule document is the content of a match-rule artifact.
  abbrev pub IsMain : List SharedBundleArtifact → SharedRuleDocument → String → Type 0
  IsMain as' main bytes =
      (a : SharedBundleArtifact) × IsIn a as'
      × (a.kind ≡ "match-rule")
      × (content_of contents a ≡ bytes)
      × (decode_rules bytes ≡ some main)

  read_artifact_main :
      (f f' : Found) (a : SharedBundleArtifact) (main : SharedRuleDocument) (bytes : String)
      → read_artifact other decode_rules decode_carriers contents f a ≡ ok f'
      → f'.main ≡ some (main, bytes)
      → (f.main ≡ some (main, bytes))
        ⊎ ((a.kind ≡ "match-rule")
            × (content_of contents a ≡ bytes)
            × (decode_rules bytes ≡ some main))
  unfolding read_artifact
  read_artifact_main f f' a main bytes h m = elim (Bool-cases (str_eq a.kind "match-rule")) [
    | inl rules ↦ elim (Option-cases (decode_rules (content_of contents a))) [
      | inl bad ↦ absurd (ground (arith, rules, bad))
      | inr (d, read) ↦ inr (
        ground (arith, rules, eq_iff a.kind "match-rule"),
        ground (arith, rules, read),
        ground (arith, rules, read),
      )
    ]
    | inr else_ ↦ elim (Option-cases (decode_carriers (content_of contents a))) [
      | inl bad ↦ absurd (ground (arith, else_, bad))
      | inr (d, read) ↦ inl (ground (arith, else_, read))
    ]
  ]

  read_artifacts-IsMain :
      (f f' : Found) (as' : List SharedBundleArtifact) (main : SharedRuleDocument) (bytes : String)
      → read_artifacts other decode_rules decode_carriers contents f as' ≡ ok f'
      → f'.main ≡ some (main, bytes)
      → (f.main ≡ some (main, bytes)) ⊎ IsMain as' main bytes
  unfolding read_artifacts
  read_artifacts-IsMain f f' [] main bytes h m = inl (ground arith)
  read_artifacts-IsMain f f' (a ∷ as') main bytes h m =
      elim (Result-cases (read_artifact other decode_rules decode_carriers contents f a)) [
        | inr (e, bad) ↦ absurd (ground (arith, bad))
        | inl (next, step) ↦
            elim (read_artifacts-IsMain next f' as' main bytes (ground (arith, step)) m) [
              | inr old ↦ inr (old.0, later old.1, old.2, old.3, old.4)
              | inl old ↦ elim (read_artifact_main f next a main bytes step old) [
                | inl before ↦ inl before
                | inr now ↦ inr (a, first, now.0, now.1, now.2)
              ]
            ]
      ]

  -- The carrier document is the content of a configuration-fragment artifact.
  abbrev pub IsCarrier : List SharedBundleArtifact → SharedCarrierDocument → Type 0
  IsCarrier as' carriers =
      (a : SharedBundleArtifact) × IsIn a as'
      × (a.kind ≡ "configuration-fragment")
      × (decode_carriers (content_of contents a) ≡ some carriers)

  read_artifact_carriers :
      (f f' : Found) (a : SharedBundleArtifact) (carriers : SharedCarrierDocument)
      → read_artifact other decode_rules decode_carriers contents f a ≡ ok f'
      → f'.carriers ≡ some carriers
      → (f.carriers ≡ some carriers)
        ⊎ ((a.kind ≡ "configuration-fragment")
            × (decode_carriers (content_of contents a) ≡ some carriers))
  unfolding read_artifact
  read_artifact_carriers f f' a carriers h m = elim (Bool-cases (str_eq a.kind "match-rule")) [
    | inl rules ↦ elim (Option-cases (decode_rules (content_of contents a))) [
      | inl bad ↦ absurd (ground (arith, rules, bad))
      | inr (d, read) ↦ inl (ground (arith, rules, read))
    ]
    | inr else_ ↦ elim (Option-cases (decode_carriers (content_of contents a))) [
      | inl bad ↦ absurd (ground (arith, else_, bad))
      | inr (d, read) ↦ inr (
        ground (arith, else_, read, eq_iff a.kind "configuration-fragment"),
        ground (arith, else_, read),
      )
    ]
  ]

  read_artifacts-IsCarrier :
      (f f' : Found) (as' : List SharedBundleArtifact) (carriers : SharedCarrierDocument)
      → read_artifacts other decode_rules decode_carriers contents f as' ≡ ok f'
      → f'.carriers ≡ some carriers
      → (f.carriers ≡ some carriers) ⊎ IsCarrier as' carriers
  unfolding read_artifacts
  read_artifacts-IsCarrier f f' [] carriers h m = inl (ground (arith))
  read_artifacts-IsCarrier f f' (a ∷ as') carriers h m =
      elim (Result-cases (read_artifact other decode_rules decode_carriers contents f a)) [
        | inr (e, bad) ↦ absurd (ground (arith, bad))
        | inl (next, step) ↦
            elim (read_artifacts-IsCarrier next f' as' carriers (ground (arith, step)) m) [
              | inr old ↦ inr (old.0, later old.1, old.2, old.3)
              | inl old ↦ elim (read_artifact_carriers f next a carriers step old) [
                | inl before ↦ inl before
                | inr now ↦ inr (a, first, now.0, now.1)
              ]
            ]
      ]

  -- A unit that is accepted reports the content of a match-rule artifact of the bundle, which decodes
  -- to a rule document that blocks; the content of a configuration-fragment artifact decodes to a
  -- carrier document with the same rule set id, as many bindings as there are rules, no binding
  -- twice, and one for each rule.
  pub unit_reads_back :
      (b : UnitBundle) (cand : CandidateSpec) (applied : AppliedApplicationUnit)
      → application_unit other decode_rules decode_carriers b contents ≡ ok (cand, applied)
      → (main : SharedRuleDocument) × (carriers : SharedCarrierDocument) × IsMain b.artifacts main
          cand.rule
        × IsCarrier b.artifacts carriers
        × FitsTogether other main carriers
        × (cand ≡ unit_spec b main cand.rule)
  unfolding application_unit
  unit_reads_back b cand applied h =
      let none_yet : Found = record { main = none; carriers = none; artifact_ids = [] } in
      elim (Result-cases
        (read_artifacts other decode_rules decode_carriers contents none_yet b.artifacts)) [
          | inr (e, bad) ↦ absurd (ground (arith, bad))
          | inl (f, found) ↦ elim (Option-cases f.main) [
            | inl missing ↦ absurd (ground (arith, found, missing))
            | inr ((main, bytes), m) ↦ elim (Option-cases f.carriers) [
              | inl missing ↦ absurd (ground (arith, found, m, missing))
              | inr (carriers, c) ↦
                  let (fits, same) =
                    checked_unit_sound other b main bytes carriers f.artifact_ids cand applied
                      (ground (arith, found, m, c)) in
                  let rule : bytes ≡ cand.rule = ground (arith, same) in
                  elim (read_artifacts-IsMain none_yet f b.artifacts main bytes found m) [
                    | inl old ↦ absurd (cc)
                    | inr is_main ↦
                        elim (read_artifacts-IsCarrier none_yet f b.artifacts carriers found c) [
                          | inl old ↦ absurd (cc)
                          | inr is_carrier ↦ (
                            main,
                            carriers,
                            rw (← rule) is_main,
                            is_carrier,
                            fits,
                            same ∙ ap (unit_spec b main) rule,
                          )
                        ]
                  ]
            ]
          ]
        ]
