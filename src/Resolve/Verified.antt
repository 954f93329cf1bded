-- ===== src/Resolve/Verified.antt =====
-- What the executors of upstream inputs and of inline candidates report.
use test_defense_validation.Base.{
  ◌≡◌, ◌⊎◌, inl, inr, refl, some, none, String, eq_iff, arith, ok, Result, Option-cases, Bool-cases,
  Result-cases, List, ap,
}
use test_defense_validation.Outcome.{RunOutcome, CandidateSpec}
use test_defense_validation.Payload.Assembly.{CustomWafRule}
use test_defense_validation.Translation.{extract_custom_waf_rule}
use test_defense_validation.Translation.Accepted.{Carries, extract_iff}
use test_defense_validation.Resolve.Report.{
  rule_resolved, failed, base_outcome, resolution_failed, report_resolved_rule,
}
use test_defense_validation.Resolve.Request.{SubmitDefenseValidationRequest}
use test_defense_validation.Resolve.Upstream.{
  UpstreamCalls, UpstreamInput, PrimaryCandidate, parse_upstream_inputs, resolve_entries,
  select_by_capability, read_candidate, query_of, primary_candidate_from_result_json,
  execute_scenario_upstream, report_inline_candidate, upstream_spec, candidate_from,
}
use test_defense_validation.Text.{is_blank}

-- The outcome of a resolution: a rule, or none and a failure. Of the run it has its own id and the
-- result's only.
abbrev pub Ends : String → String → RunOutcome → Type 0
Ends run_id result_id out =
    (out.run_id ≡ run_id)
    × (out.result_id ≡ result_id)
    × (out.request_id ≡ "")
    × (out.correlation_id ≡ "")
    × (((out.terminal_state ≡ rule_resolved) × (c : CandidateSpec) × (out.candidate ≡ some c))
        ⊎ ((out.terminal_state ≡ failed) × (out.candidate ≡ none)))

pub resolution_failed-Ends :
    (run_id result_id profile_id reason : String)
    → Ends run_id result_id (resolution_failed (base_outcome run_id result_id profile_id) reason)
unfolding resolution_failed
resolution_failed-Ends run_id result_id profile_id reason =
    (refl, refl, refl, refl, inr (refl, refl))

pub report_resolved_rule-Ends :
    (run_id result_id profile_id : String) (cand : CandidateSpec) (source detail : String)
    → Ends run_id result_id
        (report_resolved_rule (base_outcome run_id result_id profile_id) cand source detail)
unfolding report_resolved_rule
report_resolved_rule-Ends run_id result_id profile_id cand source detail =
    (refl, refl, refl, refl, inl (refl, cand, refl))

pub failed_candidate :
    (out base : RunOutcome) (reason : String) (cand : CandidateSpec)
    → base.candidate ≡ none
    → out ≡ resolution_failed base reason
    → out.candidate ≡ some cand
    → ⊥
unfolding resolution_failed
failed_candidate out base reason cand empty e h = ground arith

pub reported_candidate :
    (out base : RunOutcome) (c : CandidateSpec) (source detail : String) (cand : CandidateSpec)
    → out ≡ report_resolved_rule base c source detail
    → out.candidate ≡ some cand
    → c ≡ cand
unfolding report_resolved_rule
reported_candidate out base c source detail cand e h = ground arith

module _ (calls : UpstreamCalls) where
  -- What stands behind a rule that is reported from upstream inputs.
  abbrev pub ReadFrom : SubmitDefenseValidationRequest → CandidateSpec → Type 0
  ReadFrom req cand =
      (entries : List UpstreamInput) × (entry : UpstreamInput) × (read : (String
        → String
        → Result String String))
      × (js : String) × (rule : CustomWafRule) × (parse_upstream_inputs calls req.upstream_inputs
          ≡ ok entries)
      × (select_by_capability "control-translation" entries ≡ some entry)
      × (calls.reader ≡ some read)
      × (read (query_of entry.result_ref) entry.result_ref.key ≡ ok js)
      × (calls.codec.decode_capability js ≡ some "control-translation")
      × Carries calls.codec js rule
      × (cand ≡ upstream_spec calls.lower_other (candidate_from rule))

  primary_candidate_sound :
      (js : String) (pc : PrimaryCandidate)
      → primary_candidate_from_result_json calls js ≡ ok pc
      → (calls.codec.decode_capability js ≡ some "control-translation")
        × (rule : CustomWafRule) × Carries calls.codec js rule
        × (pc ≡ candidate_from rule)
  unfolding primary_candidate_from_result_json
  primary_candidate_sound js pc h = elim (Option-cases (calls.codec.decode_capability js)) [
    | inl missing ↦ absurd (ground (arith, missing))
    | inr (capability, e) ↦ elim (Result-cases (extract_custom_waf_rule calls.codec js)) [
      | inr (error, f) ↦ absurd (ground (arith, e, f, eq_iff capability "control-translation"))
      | inl (rule, f) ↦ (
        ground (arith, e, f, eq_iff capability "control-translation"),
        rule,
        (extract_iff calls.codec js rule).0 f,
        ground (arith, e, f),
      )
    ]
  ]

  abbrev pub Reported : SubmitDefenseValidationRequest → RunOutcome → RunOutcome → Type 0
  Reported req base out =
      ((reason : String) × (out ≡ resolution_failed base reason))
      ⊎ ((cand : CandidateSpec) × (detail : String) × ReadFrom req cand
          × (out ≡ report_resolved_rule base cand "control-translation" detail))

  resolve_entries_cases :
      (req : SubmitDefenseValidationRequest) (base : RunOutcome)
      (read : (String → String → Result String String)) (entries : List UpstreamInput)
      → parse_upstream_inputs calls req.upstream_inputs ≡ ok entries
      → calls.reader ≡ some read
      → Reported req base (resolve_entries calls base read entries)
  unfolding resolve_entries read_candidate
  resolve_entries_cases req base read entries parsed set =
      elim (Option-cases (select_by_capability "control-translation" entries)) [
        | inl missing ↦ rw (missing, resolve_entries) (inl (_, refl))
        | inr (entry, chosen) ↦
            elim (Result-cases (read (query_of entry.result_ref) entry.result_ref.key)) [
              | inr (e, unread) ↦
                  rw (chosen, unread, resolve_entries, read_candidate) (inl (_, refl))
              | inl (js, row) ↦ elim (Result-cases (primary_candidate_from_result_json calls js)) [
                | inr (e, refused) ↦
                    rw (chosen, row, refused, resolve_entries, read_candidate) (inl (_, refl))
                | inl (pc, e) ↦
                    let (capability, rule, carried, same) = primary_candidate_sound js pc e in
                    rw (chosen, row, e, resolve_entries, read_candidate)
                      (inr (
                        upstream_spec calls.lower_other pc,
                        _,
                        (
                          entries,
                          entry,
                          read,
                          js,
                          rule,
                          parsed,
                          chosen,
                          set,
                          row,
                          capability,
                          carried,
                          ap (upstream_spec calls.lower_other) same,
                        ),
                        refl,
                      ))
              ]
            ]
      ]

  pub execute_upstream_cases :
      (req : SubmitDefenseValidationRequest) (run_id result_id : String)
      → Reported req
          (base_outcome run_id result_id "")
          (execute_scenario_upstream calls req run_id result_id)
  unfolding execute_scenario_upstream read_candidate
  execute_upstream_cases req run_id result_id =
      elim (Result-cases (parse_upstream_inputs calls req.upstream_inputs)) [
        | inr (e, bad) ↦ rw (bad, execute_scenario_upstream) (inl (_, refl))
        | inl (entries, parsed) ↦ elim (Option-cases calls.reader) [
          | inl unset ↦ rw (parsed, unset, execute_scenario_upstream) (inl (_, refl))
          | inr (read, set) ↦
              let same : execute_scenario_upstream calls req run_id result_id
                  ≡ resolve_entries calls (base_outcome run_id result_id "") read entries =
                rw (parsed, set, execute_scenario_upstream) refl in
              rw same (
                resolve_entries_cases req (base_outcome run_id result_id "") read entries parsed
                  set)
        ]
      ]

  pub execute_upstream-Ends :
      (req : SubmitDefenseValidationRequest) (run_id result_id : String)
      → Ends run_id result_id (execute_scenario_upstream calls req run_id result_id)
  execute_upstream-Ends req run_id result_id = elim (execute_upstream_cases req run_id result_id) [
    | inl (reason, e) ↦ rw e (resolution_failed-Ends run_id result_id "" reason)
    | inr (cand, detail, _, e) ↦
        rw e (report_resolved_rule-Ends run_id result_id "" cand "control-translation" detail)
  ]

  -- A rule that is reported from upstream inputs is the trimmed content of the artifact that a
  -- control-translation result carries, which stood in the row that the first usable entry names.
  pub upstream_verified :
      (req : SubmitDefenseValidationRequest) (run_id result_id : String) (cand : CandidateSpec)
      → (execute_scenario_upstream calls req run_id result_id).candidate ≡ some cand
      → ReadFrom req cand
  upstream_verified req run_id result_id cand h =
      elim (execute_upstream_cases req run_id result_id) [
        | inl (reason, e) ↦
            absurd (failed_candidate _ (base_outcome run_id result_id "") reason cand refl e h)
        | inr (c, detail, read, e) ↦
            rw (← reported_candidate _ (base_outcome run_id result_id "") c _ detail cand e h) read
      ]

  pub report_inline-Ends :
      (req : SubmitDefenseValidationRequest) (run_id result_id : String)
      → Ends run_id result_id (report_inline_candidate calls req run_id result_id)
  unfolding report_inline_candidate
  report_inline-Ends req run_id result_id = elim (Option-cases req.candidate) [
    | inl missing ↦
        rw (missing, report_inline_candidate) (resolution_failed-Ends run_id result_id "" _)
    | inr (raw, given) ↦ elim (Result-cases (calls.decode_candidate raw)) [
      | inr (e, bad) ↦
          rw (given, bad, report_inline_candidate) (resolution_failed-Ends run_id result_id "" _)
      | inl (cand, read) ↦ elim (Bool-cases (is_blank cand.rule)) [
        | inl blank ↦
            rw (given, read, report_inline_candidate, blank)
              (resolution_failed-Ends run_id result_id "" _)
        | inr filled ↦
            rw (given, read, report_inline_candidate, filled)
              (report_resolved_rule-Ends run_id result_id "" cand _ _)
      ]
    ]
  ]
