-- ===== src/Translation.antt =====
-- The rule that a control-translation result carries (api/control_translation.go:
-- ExtractCustomWAFRule and its types).
pub mod Accepted
use test_defense_validation.Base.{
  ℕ, Bool, true, not, ◌&&◌, ◌||◌, Option, none, some, String, str_eq, List, [], ◌∷◌, if◌then◌else◌,
  Result, ok, err,
}
use test_defense_validation.Text.{is_blank}
use test_defense_validation.Payload.Assembly.{
  CustomWafRule, ControlCandidateMetadata, first_non_empty,
}

pub record ControlTranslationCandidate : Type 0 where
  pub artifact_id : String
  pub artifact_type : String
  pub candidate_id : String
  pub content_hash : String
  pub content_ref : String
  pub target_control_class : String
  pub target_technology : String
  pub target_policy_context_id : String
  pub candidate_metadata : ControlCandidateMetadata

pub record ControlTranslationArtifact : Type 0 where
  pub artifact_type : String
  pub kind : String
  pub role : String
  pub emitted_as : String
  pub media_type : String
  pub order : ℕ
  pub content : String
  pub content_hash : String

pub record ControlTranslationResult : Type 0 where
  pub capability : String
  pub contract_id : String
  pub result_id : String
  pub status : String
  pub terminal_state : String
  pub profile_id : String
  pub primary_candidate : ControlTranslationCandidate
  pub artifacts : List (String × ControlTranslationArtifact)

-- The errors of ExtractCustomWAFRule, with the values that their texts show.
pub data ExtractError : Type 0 where
  unparsed no_artifact_id : ExtractError
  other_capability untranslated missing_artifact empty_content not_json : String → ExtractError
  hashes_disagree : String → String → ExtractError
  hash_differs : String → String → String → ExtractError

module _ {ℓ} {A : Type ℓ} where
  -- A read of a Go map with texts as keys.
  unfoldable pub lookup : String → List (String × A) → Option A
  lookup k [] = none
  lookup k ((j, a) ∷ m) = if str_eq j k then some a else lookup k m

-- encoding/json on the result and on its capability alone, json.Valid, and SHA-256 with the
-- "sha256:" prefix.
pub record TranslationCodec : Type 0 where
  pub decode : String → Option ControlTranslationResult
  pub decode_capability : String → Option String
  pub is_valid : String → Bool
  pub digest : String → String

abbrev pub extracted : ControlTranslationCandidate → ControlTranslationArtifact → CustomWafRule
extracted c a = record {
  artifact_id = c.artifact_id;
  artifact_type = first_non_empty c.artifact_type a.artifact_type;
  candidate_id = c.candidate_id;
  technology = c.target_technology;
  control_class = c.target_control_class;
  content = a.content;
  content_hash = a.content_hash;
  metadata = c.candidate_metadata;
}

module _ (codec : TranslationCodec) where
  -- The tests on the artifact that the candidate names.
  unfoldable pub extract_artifact :
      ControlTranslationCandidate → ControlTranslationArtifact → Result ExtractError CustomWafRule
  extract_artifact c a =
      if is_blank a.content
      then err (empty_content c.artifact_id)
      else if not (str_eq c.content_hash "") && not (str_eq c.content_hash a.content_hash)
      then err (hashes_disagree c.content_hash a.content_hash)
      else if not (str_eq a.content_hash "") && not (str_eq (codec.digest a.content) a.content_hash)
      then err (hash_differs c.artifact_id a.content_hash (codec.digest a.content))
      else if not (codec.is_valid a.content)
      then err (not_json c.artifact_id)
      else ok (extracted c a)

  unfoldable pub extract_result : ControlTranslationResult → Result ExtractError CustomWafRule
  unfolding extract_artifact lookup
  extract_result r =
      if not (str_eq r.capability "") && not (str_eq r.capability "control-translation")
      then err (other_capability r.capability)
      else if not (str_eq r.terminal_state "") && not (str_eq r.terminal_state "translated")
      then err (untranslated r.terminal_state)
      else if is_blank r.primary_candidate.artifact_id
      then err no_artifact_id
      else elim (lookup r.primary_candidate.artifact_id r.artifacts) [
        | none ↦ err (missing_artifact r.primary_candidate.artifact_id)
        | some a ↦ extract_artifact r.primary_candidate a
      ]

  unfoldable pub extract_custom_waf_rule : String → Result ExtractError CustomWafRule
  unfolding extract_result
  extract_custom_waf_rule raw = elim (codec.decode raw) [
    | none ↦ err unparsed
    | some r ↦ extract_result r
  ]
