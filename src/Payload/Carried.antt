-- ===== src/Payload/Carried.antt =====
-- What an enforcement payload carries (api/janus_payload.go: JanusPayloadFromCustomWAFRule).
use test_defense_validation.Base.{
  ◌≡◌, refl, Option, some, String, List, [], ◌∷◌, All, arith, ok, Option-cases, Result-cases, inl,
  inr,
}
use test_defense_validation.Payload.Rules.{
  AkamaiAlternative, AkamaiRuleSet, merge_alternatives, policy_action_for,
}
use test_defense_validation.Payload.Action.{asked_action, policy_action_agreed}
use test_defense_validation.Payload.Assembly.{
  JanusPayloadOptions, CustomWafRule, JanusPayload, JanusStructuredRule, structured_rule_of,
  from_rules, from_set, janus_payload,
}

module _ (parse : String → Option AkamaiRuleSet) (marshal : JanusStructuredRule → Option String)
    (sha256 : String → String) where
  -- The rule set that the payload was made of, and what it has of it.
  abbrev pub IsCarried :
      CustomWafRule
      → AkamaiRuleSet
      → AkamaiAlternative
      → List AkamaiAlternative
      → JanusPayload
      → Type 0
  IsCarried rule set base others p =
      (merge_alternatives set.combination_operation base others ≡ ok (p.structured_rule.conditions))
      × (policy_action_for base others ≡ ok p.desired_action)
      × ((realized : String) × (marshal p.structured_rule ≡ some realized)
          × (p.janus_binding.realized_artifact_digest ≡ sha256 realized))
      × (p.janus_binding.candidate_digest ≡ rule.content_hash)

  from_rules-IsCarried :
      (rule : CustomWafRule) (opts : JanusPayloadOptions) (set : AkamaiRuleSet)
      (base : AkamaiAlternative) (others : List AkamaiAlternative) (p : JanusPayload)
      → from_rules parse marshal sha256 rule opts set base others ≡ ok p
      → IsCarried rule set base others p
  unfolding from_rules
  from_rules-IsCarried rule opts set base others p h =
      elim (Result-cases (merge_alternatives set.combination_operation base others)) [
        | inr (e, m) ↦ absurd (ground (arith, m))
        | inl (merged, m) ↦ elim (Result-cases (policy_action_for base others)) [
          | inr (e, n) ↦ absurd (ground (arith, m, n))
          | inl (action, n) ↦ elim (Option-cases (marshal (structured_rule_of opts.cve merged))) [
            | inl e ↦ absurd (ground (arith, m, n, e))
            | inr (realized, e) ↦ (
              ground (arith, m, n, e),
              ground (arith, m, n, e),
              (realized, ground (arith, m, n, e), ground (arith, m, n, e)),
              ground (arith, m, n, e),
            )
          ]
        ]
      ]

  from_set-rules :
      (rule : CustomWafRule) (opts : JanusPayloadOptions) (set : AkamaiRuleSet)
      (rules : List AkamaiAlternative) (p : JanusPayload)
      → set.rules ≡ rules
      → from_set parse marshal sha256 rule opts set ≡ ok p
      → (base : AkamaiAlternative) × (others : List AkamaiAlternative) × (set.rules ≡ base ∷ others)
        × (from_rules parse marshal sha256 rule opts set base others ≡ ok p)
  unfolding from_set
  from_set-rules rule opts set [] p e h = absurd (ground (arith, e))
  from_set-rules rule opts set (base ∷ others) p e h = (base, others, e, ground (arith, e))

  parsed_from :
      (rule : CustomWafRule) (opts : JanusPayloadOptions) (p : JanusPayload)
      → janus_payload parse marshal sha256 rule opts ≡ ok p
      → (set : AkamaiRuleSet) × (parse rule.content ≡ some set)
        × (from_set parse marshal sha256 rule opts set ≡ ok p)
  unfolding janus_payload
  parsed_from rule opts p h = elim (Option-cases (parse rule.content)) [
    | inl e ↦ absurd (ground (arith, e))
    | inr (set, e) ↦ (set, e, ground (arith, e))
  ]

  -- A payload that is built carries the collapse of the rule set's alternatives, the action that
  -- every alternative asks for, the digest of exactly the structured rule that it carries, and, as
  -- the candidate's digest, the content hash that the rule declares.
  pub payload_carries :
      (rule : CustomWafRule) (opts : JanusPayloadOptions) (p : JanusPayload)
      → janus_payload parse marshal sha256 rule opts ≡ ok p
      → (set : AkamaiRuleSet) × (base : AkamaiAlternative) × (others : List AkamaiAlternative)
        × (parse rule.content ≡ some set)
        × (set.rules ≡ base ∷ others)
        × IsCarried rule set base others p
        × All (λ a. asked_action a ≡ some p.desired_action) (base ∷ others)
  payload_carries rule opts p h =
      let (set, e, s) = parsed_from rule opts p h in
      let (base, others, r, k) = from_set-rules rule opts set set.rules p refl s in
      let c = from_rules-IsCarried rule opts set base others p k in
      (set, base, others, e, r, c, policy_action_agreed base others p.desired_action c.1)
