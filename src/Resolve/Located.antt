-- ===== src/Resolve/Located.antt =====
-- What the executor of reference-only requests reports (api/executor_locator.go).
use Prim.Native.String.{◌++◌ as append}
use test_defense_validation.Base.{
  ◌≡◌, ◌⊎◌, inl, inr, none, some, String, List, [], ◌∷◌, ap, arith, ◌∙◌, Result, ok, err,
  Option-cases, Result-cases, eq_iff,
}
use test_defense_validation.Outcome.{RunOutcome, CandidateSpec}
use test_defense_validation.Resolve.Request.{ImmutableResultLocator, SubmitDefenseValidationRequest}
use test_defense_validation.Resolve.Locator.{validate_immutable_locator}
use test_defense_validation.Resolve.Report.{base_outcome, resolution_failed}
use test_defense_validation.Resolve.Rows.{DefenseRow, CheckRow, verify_defense_row}
use test_defense_validation.Resolve.CheckRow.{verify_check_row}
use test_defense_validation.Resolve.Pinned.{IsPinned, verify_defense_row_sound}
use test_defense_validation.Resolve.Lineage.{IsLineage, verify_check_row_sound}
use test_defense_validation.Resolve.Locate.{
  LocatorCalls, ResolvedLocatorInputs, only, only_row, resolve_check, resolve_rows, resolve,
  execute_scenario_by_locator, reported_locator, locator_provenance,
}

only_sound {ℓ} : {A : Type ℓ} (as' : List A) (a : A) → only as' ≡ some a → as' ≡ a ∷ []
unfolding only
only_sound [] a h = cc
only_sound (b ∷ []) a h = cc
only_sound (b ∷ c ∷ bs) a h = cc

module _ (calls : LocatorCalls) where
  only_row_sound {ℓ} :
      {A : Type ℓ} (rows : Result String (List A)) (producer : String) (a : A)
      → only_row calls rows producer ≡ ok a
      → rows ≡ ok (a ∷ [])
  unfolding only_row
  only_row_sound (err e) producer a h = cc
  only_row_sound (ok found) producer a h = elim (Option-cases (only found)) [
    | inl missing ↦ absurd (ground (arith, missing))
    | inr (b, one) ↦
        let same : b ≡ a = ground (arith, one) in ap ok (only_sound found a (one ∙ ap some same))
  ]

  -- What stands behind the inputs that were resolved: the one row of each locator, both verified.
  abbrev pub Stands :
      ImmutableResultLocator → ImmutableResultLocator → ResolvedLocatorInputs → Type 0
  Stands defense check r =
      (row : DefenseRow) × (lineage : CheckRow) × (evidence : List String)
      × (validate_immutable_locator calls.rows.parse_time defense "defense-generation" ≡ none)
      × (validate_immutable_locator calls.rows.parse_time check "check-generation" ≡ none)
      × (defense.correlation_id ≡ check.correlation_id)
      × (calls.defense defense.result_id ≡ ok (row ∷ []))
      × IsPinned calls.rows row defense r.candidate
      × (calls.check check.result_id ≡ ok (lineage ∷ []))
      × IsLineage calls.rows lineage check evidence
      × (r.provenance ≡ locator_provenance defense check)

  resolve_check_sound :
      (defense check : ImmutableResultLocator) (candidate : CandidateSpec) (evidence : List String)
      (r : ResolvedLocatorInputs)
      → resolve_check calls defense check candidate evidence ≡ ok r
      → (lineage : CheckRow) × (found : List String) × (calls.check check.result_id
          ≡ ok (lineage ∷ []))
        × IsLineage calls.rows lineage check found
        × (r.candidate ≡ candidate)
        × (r.provenance ≡ locator_provenance defense check)
  unfolding resolve_check
  resolve_check_sound defense check candidate evidence r h =
      elim (Result-cases (only_row calls (calls.check check.result_id) "Check Generation")) [
        | inr (e, bad) ↦ absurd (ground (arith, bad))
        | inl (row, one) ↦ elim (Result-cases (verify_check_row calls.rows row check)) [
          | inr (e, bad) ↦ absurd (ground (arith, one, bad))
          | inl ((raw, found), verified) ↦ (
            row,
            found,
            only_row_sound (calls.check check.result_id) "Check Generation" row one,
            verify_check_row_sound calls.rows row check raw found verified,
            ground (arith, one, verified),
            ground (arith, one, verified),
          )
        ]
      ]

  resolve_rows_sound :
      (defense check : ImmutableResultLocator) (r : ResolvedLocatorInputs)
      → resolve_rows calls defense check ≡ ok r
      → (row : DefenseRow) × (lineage : CheckRow) × (found : List String) × (calls.defense
            defense.result_id
          ≡ ok (row ∷ []))
        × IsPinned calls.rows row defense r.candidate
        × (calls.check check.result_id ≡ ok (lineage ∷ []))
        × IsLineage calls.rows lineage check found
        × (r.provenance ≡ locator_provenance defense check)
  unfolding resolve_rows
  resolve_rows_sound defense check r h =
      elim (Result-cases (only_row calls (calls.defense defense.result_id) "Defense Generation")) [
        | inr (e, bad) ↦ absurd (ground (arith, bad))
        | inl (row, one) ↦ elim (Result-cases (verify_defense_row calls.rows row defense)) [
          | inr (e, bad) ↦ absurd (ground (arith, one, bad))
          | inl ((cand, evidence), verified) ↦
              let (lineage, found, only', line, same, origin) =
                resolve_check_sound defense check cand evidence r (ground (arith, one, verified)) in
              (
                row,
                lineage,
                found,
                only_row_sound (calls.defense defense.result_id) "Defense Generation" row one,
                rw same (verify_defense_row_sound calls.rows row defense cand evidence verified),
                only',
                line,
                origin,
              )
        ]
      ]

  -- The three guards of Resolve.
  resolve_guards :
      (defense check : ImmutableResultLocator) (r : ResolvedLocatorInputs)
      → resolve calls defense check ≡ ok r
      → (validate_immutable_locator calls.rows.parse_time defense "defense-generation" ≡ none)
        × (validate_immutable_locator calls.rows.parse_time check "check-generation" ≡ none)
        × (defense.correlation_id ≡ check.correlation_id)
        × (resolve_rows calls defense check ≡ ok r)
  unfolding resolve
  resolve_guards defense check r h =
      elim (Option-cases
        (validate_immutable_locator calls.rows.parse_time defense "defense-generation")) [
          | inr (e, bad) ↦ absurd (ground (arith, bad))
          | inl valid ↦
              elim (Option-cases
                (validate_immutable_locator calls.rows.parse_time check "check-generation")) [
                  | inr (e, bad) ↦ absurd (ground (arith, valid, bad))
                  | inl valid' ↦ (
                    valid,
                    valid',
                    ground
                        (arith, valid, valid', eq_iff defense.correlation_id check.correlation_id),
                    ground (arith, valid, valid'),
                  )
                ]
        ]

  resolve_sound :
      (defense check : ImmutableResultLocator) (r : ResolvedLocatorInputs)
      → resolve calls defense check ≡ ok r
      → Stands defense check r
  resolve_sound defense check r h =
      let (valid, valid', same, found) = resolve_guards defense check r h in
      let (row, lineage, evidence, one, pinned, other, line, origin) =
        resolve_rows_sound defense check r found in
      (row, lineage, evidence, valid, valid', same, one, pinned, other, line, origin)

  -- The cases of the executor.
  abbrev pub LocatorCases : SubmitDefenseValidationRequest → RunOutcome → RunOutcome → Type 0
  LocatorCases req base out =
      ((reason : String) × (out ≡ resolution_failed base reason))
      ⊎ ((defense : ImmutableResultLocator) × (check : ImmutableResultLocator)
          × (r : ResolvedLocatorInputs) × (req.defense_result ≡ some defense)
          × (req.check_result ≡ some check)
          × Stands defense check r
          × (out ≡ reported_locator calls base r))

  pub execute_by-LocatorCases :
      (req : SubmitDefenseValidationRequest) (run_id result_id : String) (out : RunOutcome)
      → execute_scenario_by_locator calls req run_id result_id ≡ some out
      → LocatorCases req (base_outcome run_id result_id "") out
  unfolding execute_scenario_by_locator
  execute_by-LocatorCases req run_id result_id out h = elim (Option-cases calls.unmade) [
    | inr (e, unmade) ↦ inl (append "reference-only input resolver: " e, ground (arith, unmade))
    | inl made ↦ elim (Option-cases req.defense_result) [
      | inl missing ↦ absurd (ground (arith, made, missing))
      | inr (defense, d) ↦ elim (Option-cases req.check_result) [
        | inl missing ↦ absurd (ground (arith, made, d, missing))
        | inr (check, c) ↦ elim (Result-cases (resolve calls defense check)) [
          | inr (e, bad) ↦
              inl (
                append "reference-only input resolution failed: " e,
                ground (arith, made, d, c, bad),
              )
          | inl (r, found) ↦ inr (
            defense,
            check,
            r,
            d,
            c,
            resolve_sound defense check r found,
            ground (arith, made, d, c, found),
          )
        ]
      ]
    ]
  ]
