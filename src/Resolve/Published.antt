-- ===== src/Resolve/Published.antt =====
-- What the execution of a run results in, and what it hands off (api/lifecycle.go,
-- api/enforcement.go).
use mathlib.Core.Path.{subst, ap}
use test_defense_validation.Base.{
  ◌≡◌, inl, inr, Bool, ◌&&◌, some, String, ok, err, is_some, arith, Option-cases, Bool-cases, ℕ,
  ◌∙◌, ◌⊎◌, none, refl, Option, str_eq, false, ap,
}
use test_defense_validation.Outcome.{
  RunOutcome, set_canonical_integrity, digest_bytes, CandidateSpec,
}
use test_defense_validation.Resolve.Request.{
  SubmitDefenseValidationRequest, locator_mode, v2_locator_mode,
}
use test_defense_validation.Resolve.Verified.{Ends, execute_upstream-Ends, report_inline-Ends}
use test_defense_validation.Resolve.Admitted.{execute_by_locator-Ends}
use test_defense_validation.Resolve.Durable.{
  Service, resolve_requested_rule_input, persist_resolved_rule, post_enforcement_issue, handoff,
  is_withheld, reported_rule, resolve_requested_rule, enveloped, execute_durable_run,
}
use test_defense_validation.Shared.Execute.{execute_shared_contract_v2-Ends}
use test_defense_validation.Resolve.Upstream.{execute_scenario_upstream, report_inline_candidate}
use test_defense_validation.Resolve.Report.{rule_resolved, failed}
use test_defense_validation.Ledger.Row.{Submission}
use test_defense_validation.Outcome.Canonical.{digest-signed, signed_bytes}

-- The fields of an outcome that say what was resolved, and for which run.
abbrev pub Keeps : RunOutcome → RunOutcome → Type 0
Keeps a b =
    (b.run_id ≡ a.run_id)
    × (b.result_id ≡ a.result_id)
    × (b.request_id ≡ a.request_id)
    × (b.correlation_id ≡ a.correlation_id)
    × (b.terminal_state ≡ a.terminal_state)
    × (b.candidate ≡ a.candidate)

module _ (s : Service) where
  pub resolved-Ends :
      (req : SubmitDefenseValidationRequest) (run_id result_id : String) (out : RunOutcome)
      → resolve_requested_rule_input s req run_id result_id ≡ some out
      → Ends run_id result_id out
  unfolding resolve_requested_rule_input
  resolved-Ends req run_id result_id out h = elim (Bool-cases (v2_locator_mode req)) [
    | inl v2 ↦
        execute_shared_contract_v2-Ends s.shared req run_id result_id out (ground (arith, v2))
    | inr old ↦ elim (Bool-cases (locator_mode req)) [
      | inl located ↦
          execute_by_locator-Ends s.locator req run_id result_id out (ground (arith, old, located))
      | inr free ↦ elim (Bool-cases (s.upstream_input_mode && is_some req.upstream_inputs)) [
        | inl inputs ↦
            let same : execute_scenario_upstream s.upstream req run_id result_id ≡ out =
              ground (arith, old, free, inputs) in
            rw (← same) (execute_upstream-Ends s.upstream req run_id result_id)
        | inr inline_ ↦
            let same : report_inline_candidate s.upstream req run_id result_id ≡ out =
              ground (arith, old, free, inline_) in
            rw (← same) (report_inline-Ends s.upstream req run_id result_id)
      ]
    ]
  ]

  pub persist-Keeps : (out : RunOutcome) → Keeps out (persist_resolved_rule s out).0
  unfolding persist_resolved_rule
  persist-Keeps out = elim (Option-cases (reported_rule s out)) [
    | inl missing ↦ ground (arith, missing)
    | inr (c, given) ↦ elim (Option-cases s.rule_sink) [
      | inl unset ↦ ground (arith, given, unset)
      | inr (sink, set) ↦ elim (Option-cases (sink.write_rule out)) [
        | inl fine ↦ ground (arith, given, set, fine)
        | inr (e, bad) ↦ ground (arith, given, set, bad)
      ]
    ]
  ]

  post-Keeps :
      (req : SubmitDefenseValidationRequest) (out : RunOutcome) (written : Bool)
      → Keeps out (post_enforcement_issue s req out written)
  unfolding post_enforcement_issue
  post-Keeps req out written = elim (Bool-cases (is_withheld s req out written)) [
    | inl withheld ↦ ground (arith, withheld)
    | inr due ↦ elim (Option-cases (handoff s req out written)) [
      | inl nothing_ ↦ ground (arith, due, nothing_)
      | inr (err e, bad) ↦ ground (arith, due, bad)
      | inr (ok h, attempt) ↦ elim (Option-cases (s.post h.rule h.input h.identity)) [
        | inl posted ↦ ground (arith, due, attempt, posted)
        | inr (e, bad) ↦ ground (arith, due, attempt, bad)
      ]
    ]
  ]

  requested-Keeps :
      (req : SubmitDefenseValidationRequest) (run_id result_id : String) (out : RunOutcome)
      → resolve_requested_rule s req run_id result_id ≡ some out
      → (before : RunOutcome) × Ends run_id result_id before × Keeps before out
  unfolding resolve_requested_rule
  requested-Keeps req run_id result_id out h =
      elim (Option-cases (resolve_requested_rule_input s req run_id result_id)) [
        | inl missing ↦ absurd (ground (arith, missing))
        | inr (before, resolved) ↦
            let (kept, written) = persist_resolved_rule s before in
            let same : post_enforcement_issue s req (persist_resolved_rule s before).0
                  (persist_resolved_rule s before).1
                ≡ out =
              ground (arith, resolved) in
            let first = persist-Keeps before in
            let second =
              post-Keeps req (persist_resolved_rule s before).0
                (persist_resolved_rule s before).1 in
            (
              before,
              resolved-Ends req run_id result_id before resolved,
              rw (← same) (
                second.0 ∙ first.0,
                second.1 ∙ first.1,
                second.2 ∙ first.2,
                second.3 ∙ first.3,
                second.4 ∙ first.4,
                second.5 ∙ first.5,
              ),
            )
      ]

  -- What a run's result says of the run, and what it reports.
  abbrev pub IsResultOf : Submission → RunOutcome → Type 0
  IsResultOf run out =
      (out.run_id ≡ run.run_id)
      × (out.result_id ≡ run.result_id)
      × (out.request_id ≡ run.request_id)
      × (out.correlation_id ≡ run.correlation_id)
      × (out.request_sha256 ≡ run.request_digest)
      × (out.status ≡ "completed")
      × (((out.terminal_state ≡ rule_resolved) × (c : CandidateSpec) × (out.candidate ≡ some c))
          ⊎ ((out.terminal_state ≡ failed) × (out.candidate ≡ none)))

  Ends-status :
      (run_id result_id : String) (before out : RunOutcome)
      → Ends run_id result_id before
      → Keeps before out
      → (str_eq out.terminal_state "malfunction" ≡ false)
        × (((out.terminal_state ≡ rule_resolved) × (c : CandidateSpec) × (out.candidate ≡ some c))
            ⊎ ((out.terminal_state ≡ failed) × (out.candidate ≡ none)))
  Ends-status run_id result_id before out e k = elim (e.4) [
    | inl (state, c, reported) ↦ (rw (k.4 ∙ state) refl, inl (k.4 ∙ state, c, k.5 ∙ reported))
    | inr (state, silent) ↦ (rw (k.4 ∙ state) refl, inr (k.4 ∙ state, k.5 ∙ silent))
  ]

  enveloped-IsResultOf :
      (run : Submission) (inputs : Option String) (now : ℕ) (before out : RunOutcome)
      → Ends run.run_id run.result_id before
      → Keeps before out
      → IsResultOf run (enveloped s run inputs now out)
  unfolding enveloped
  enveloped-IsResultOf run none now before out e k =
      let (status, ends) = Ends-status run.run_id run.result_id before out e k in
      (k.0 ∙ e.0, k.1 ∙ e.1, refl, refl, refl, rw status refl, ends)
  enveloped-IsResultOf run (some raw) now before out e k =
      let (status, ends) = Ends-status run.run_id run.result_id before out e k in
      (k.0 ∙ e.0, k.1 ∙ e.1, refl, refl, refl, rw status refl, ends)

  signed-IsResultOf :
      (run : Submission) (o signed : RunOutcome)
      → set_canonical_integrity s.codec o ≡ some signed
      → IsResultOf run o
      → IsResultOf run signed
  unfolding set_canonical_integrity
  signed-IsResultOf run o signed h r = elim (Option-cases (digest_bytes s.codec o)) [
    | inl missing ↦ absurd (ground (arith, missing))
    | inr (bytes, e) ↦
        let same : record o {
          content_sha256 = s.codec.sha256 bytes;
          size_bytes = s.codec.size bytes;
        }
            ≡ signed =
          ground (arith, e) in
        subst (IsResultOf run) same r
  ]

  -- The integrity fields are the digest and the size of the unsigned result's bytes.
  abbrev pub IsSigned : RunOutcome → Type 0
  IsSigned out =
      (bytes : String) × (digest_bytes s.codec out ≡ some bytes)
      × (out.content_sha256 ≡ s.codec.sha256 bytes)
      × (out.size_bytes ≡ s.codec.size bytes)

  -- A run that is executed results in an envelope of that run, completed, with a rule if it is
  -- resolved and without one if it failed, there being no third state; and with the digest and the
  -- size of the unsigned envelope.
  pub durable_result :
      (run : Submission) (now : ℕ) (signed : RunOutcome)
      → execute_durable_run s run now ≡ some (ok signed)
      → IsResultOf run signed × IsSigned signed
  unfolding execute_durable_run
  durable_result run now signed h = elim (Option-cases (s.decode_request run.request)) [
    | inl bad ↦ absurd (ground (arith, bad))
    | inr (req, decoded) ↦
        elim (Option-cases (resolve_requested_rule s req run.run_id run.result_id)) [
          | inl panic ↦ absurd (ground (arith, decoded, panic))
          | inr (out, resolved) ↦
              let o = enveloped s run req.upstream_inputs now out in
              elim (Option-cases (set_canonical_integrity s.codec o)) [
                | inl bad ↦ absurd (ground (arith, decoded, resolved, bad))
                | inr (result, e) ↦
                    let same : result ≡ signed = ground (arith, decoded, resolved, e) in
                    let (before, ends, kept) =
                      requested-Keeps req run.run_id run.result_id out resolved in
                    let (bytes, d) = signed_bytes s.codec o result e in
                    let (x, y, z) = digest-signed s.codec o signed bytes d (e ∙ ap some same) in
                    (
                      signed-IsResultOf run o signed (e ∙ ap some same)
                          (enveloped-IsResultOf run req.upstream_inputs now before out ends kept),
                      (bytes, x, y, z),
                    )
              ]
        ]
  ]
