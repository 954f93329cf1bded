-- ===== src/Translation/Accepted.antt =====
-- What ExtractCustomWAFRule accepts.
use test_defense_validation.Base.{
  ◌≡◌, ◌↔◌, ◌⊎◌, ◌||◌, inl, inr, true, false, some, String, str_eq, eq_iff, arith, ok, Option-cases,
  Bool-cases,
}
use test_defense_validation.Text.{is_blank}
use test_defense_validation.Payload.Assembly.{CustomWafRule}
use test_defense_validation.Translation.{
  TranslationCodec, ControlTranslationResult, ControlTranslationCandidate,
  ControlTranslationArtifact, extracted, extract_artifact, extract_result, extract_custom_waf_rule,
  lookup,
}

-- A result of this capability, or of none, that ended as translated, or in no state, and names an
-- artifact.
abbrev pub IsDeclared : ControlTranslationResult → Type 0
IsDeclared r =
    ((r.capability ≡ "") ⊎ (r.capability ≡ "control-translation"))
    × ((r.terminal_state ≡ "") ⊎ (r.terminal_state ≡ "translated"))
    × (is_blank r.primary_candidate.artifact_id ≡ false)

empty_or : (s : String) (t u : String) → (str_eq s "" || str_eq t u) ≡ true → (s ≡ "") ⊎ (t ≡ u)
empty_or s t u h = elim (Bool-cases (str_eq s "")) [
  | inl e ↦ inl ((eq_iff s "").0 e)
  | inr e ↦ inr ((eq_iff t u).0 (ground arith))
]

or_empty : (s : String) (t u : String) → (s ≡ "") ⊎ (t ≡ u) → (str_eq s "" || str_eq t u) ≡ true
or_empty s t u (inl e) = ground (arith, eq_iff s "")
or_empty s t u (inr e) = ground (arith, eq_iff t u)

module _ (codec : TranslationCodec) where
  -- An artifact with content that is JSON and agrees with what hashes are declared.
  abbrev pub IsIntact : ControlTranslationCandidate → ControlTranslationArtifact → Type 0
  IsIntact c a =
      (is_blank a.content ≡ false)
      × ((c.content_hash ≡ "") ⊎ (c.content_hash ≡ a.content_hash))
      × ((a.content_hash ≡ "") ⊎ (codec.digest a.content ≡ a.content_hash))
      × (codec.is_valid a.content ≡ true)

  abbrev pub Carries : String → CustomWafRule → Type 0
  Carries raw rule =
      (r : ControlTranslationResult) × (a : ControlTranslationArtifact) × (codec.decode raw
        ≡ some r)
      × IsDeclared r
      × (lookup r.primary_candidate.artifact_id r.artifacts ≡ some a)
      × IsIntact r.primary_candidate a
      × (rule ≡ extracted r.primary_candidate a)

  extract_artifact_iff :
      (c : ControlTranslationCandidate) (a : ControlTranslationArtifact) (rule : CustomWafRule)
      → (extract_artifact codec c a ≡ ok rule) ↔ (IsIntact c a × (rule ≡ extracted c a))
  unfolding extract_artifact
  extract_artifact_iff c a rule = (
    λ h. (
      (
        ground arith,
        empty_or c.content_hash c.content_hash a.content_hash (ground arith),
        empty_or a.content_hash (codec.digest a.content) a.content_hash (ground arith),
        ground arith,
      ),
      ground arith,
    ),
    λ h. ground (
      arith,
      or_empty c.content_hash c.content_hash a.content_hash h.0.1,
      or_empty a.content_hash (codec.digest a.content) a.content_hash h.0.2,
    ),
  )

  extract_result_iff :
      (r : ControlTranslationResult) (rule : CustomWafRule)
      → (extract_result codec r ≡ ok rule) ↔ (
          (a : ControlTranslationArtifact) × IsDeclared r
          × (lookup r.primary_candidate.artifact_id r.artifacts ≡ some a)
          × (extract_artifact codec r.primary_candidate a ≡ ok rule))
  unfolding extract_result
  extract_result_iff r rule = (
    λ h. elim (Option-cases (lookup r.primary_candidate.artifact_id r.artifacts)) [
      | inl missing ↦ absurd (ground (arith, missing))
      | inr (a, found) ↦ (
        a,
        (
          empty_or r.capability r.capability "control-translation" (ground (arith, found)),
          empty_or r.terminal_state r.terminal_state "translated" (ground (arith, found)),
          ground (arith, found),
        ),
        found,
        ground (arith, found),
      )
    ],
    λ (a, d, found, e). ground (
      arith,
      found,
      or_empty r.capability r.capability "control-translation" d.0,
      or_empty r.terminal_state r.terminal_state "translated" d.1,
    ),
  )

  -- ExtractCustomWAFRule accepts exactly the documents that carry the rule: a result of the
  -- capability control-translation, or of none, that ended as translated, or in no state, names an
  -- artifact of its own with content that is JSON, and declares no hash or hashes that agree: the
  -- candidate's with the artifact's, and the artifact's with the digest of the content.
  pub extract_iff :
      (raw : String) (rule : CustomWafRule)
      → (extract_custom_waf_rule codec raw ≡ ok rule) ↔ Carries raw rule
  unfolding extract_custom_waf_rule
  extract_iff raw rule = (
    λ h. elim (Option-cases (codec.decode raw)) [
      | inl none_ ↦ absurd (ground (arith, none_))
      | inr (r, decoded) ↦
          let (a, d, found, e) = (extract_result_iff r rule).0 (ground (arith, decoded)) in
          let (i, same) = (extract_artifact_iff r.primary_candidate a rule).0 e in
          (r, a, decoded, d, found, i, same)
    ],
    λ (r, a, decoded, d, found, i, same).
        let e = (extract_artifact_iff r.primary_candidate a rule).1 (i, same) in
        ground (arith, decoded, (extract_result_iff r rule).1 (a, d, found, e)),
  )
