-- ===== src/Resolve/Rows.antt =====
-- The verification of the producers' rows (api/executor_locator.go: verifyDefenseRow,
-- verifyCheckRow, volumeManifest, stableStringUnion, sameTimestamp).
use Prim.Native.String.{◌++◌ as append, len}
use test_defense_validation.Base.{
  ℕ, Bool, false, not, ◌&&◌, ◌||◌, Option, none, some, String, str_eq, List, [], ◌∷◌, ◌++◌,
  if◌then◌else◌, leb, ◌==◌, Result, ok, err,
}
use test_defense_validation.Text.{is_blank}
use test_defense_validation.Text.Strings.{trim_prefix}
use test_defense_validation.Payload.Rules.{contains}
use test_defense_validation.Outcome.{CandidateSpec}
use test_defense_validation.Json.{Value}
use test_defense_validation.Resolve.Action.{derive_rule_action}
use test_defense_validation.Resolve.Request.{UpstreamRef, ImmutableResultLocator}
use test_defense_validation.Resolve.Locator.{
  valid_sha256, max_locator_payload_bytes, locator_catalog,
}

pub record DefenseRow : Type 0 where
  pub run_id : String
  pub result_id : String
  pub terminal_state : String
  pub result_json : String

pub record CheckRow : Type 0 where
  pub result_id : String
  pub run_id : String
  pub request_id : String
  pub correlation_id : String
  pub capability : String
  pub terminal_state : String
  pub status : String
  pub result_json : String
  pub completion_json : String
  pub result_sha256 : String
  pub result_size_bytes : ℕ
  pub created_at : String

pub record DefenseCandidate : Type 0 where
  pub candidate_id : String
  pub artifact_type : String
  pub artifact_content : String
  pub artifact_hash : String
  pub evidence_refs : List String
  pub others : String

pub record DefenseUpstreamRef : Type 0 where
  pub evidence_refs : List String
  pub others : String

-- The members that are read, and all others as one text.
pub record DefenseResult : Type 0 where
  pub capability : String
  pub contract_id : String
  pub request_id : String
  pub correlation_id : String
  pub run_id : String
  pub result_id : String
  pub status : String
  pub terminal_state : String
  pub result_ref : Option UpstreamRef
  pub evidence_refs : List String
  pub primary_candidate : Option DefenseCandidate
  pub candidate_bundle : Option String
  pub candidate_artifact_contents : List (String × String)
  pub upstream_result_refs : List DefenseUpstreamRef
  pub content_sha256 : String
  pub size_bytes : ℕ
  pub created_at : String
  pub others : String

pub record VolumeManifest : Type 0 where
  pub contract_type : String
  pub contract_version : String
  pub reference : String
  pub media_type : String
  pub encoding : String
  pub content_sha256 : String
  pub size_bytes : ℕ
  pub volume_catalog : String
  pub volume_schema : String
  pub volume_name : String

pub record StoredResult : Type 0 where
  pub contract_type : String
  pub contract_version : String
  pub result_id : String
  pub run_result : Option String

-- What the verification calls: encoding/json, time.Parse with the two layouts, SHA-256 with its
-- prefix, number formatting and quoting of the RFC 8785 form, and the Files API.
pub record RowCalls : Type 0 where
  pub digest : String → String
  pub parse_time : String → Option ℕ
  pub parse_plain : String → Option ℕ
  pub decode_defense : String → Option DefenseResult
  pub marshal_defense : DefenseResult → Option String
  pub canonical_sorted : String → Option String
  pub decode_manifest : String → Option VolumeManifest
  pub has_manifest_shape : String → Bool
  pub decode_stored : String → Option StoredResult
  pub decode_value : String → Option Value
  pub natural : String → Option ℕ
  pub number : String → Option String
  pub quote : String → String
  pub volume : String → ℕ → Result String String

-- `seen` holds what `result` does.
unfoldable pub union_onto : List String → List String → List String
union_onto result [] = result
union_onto result (s ∷ ss) =
    union_onto (if is_blank s || contains s result then result else result ++ s ∷ []) ss

unfoldable pub stable_string_union : List String → List String → List String
unfolding union_onto
stable_string_union a b = union_onto (union_onto [] a) b

-- for _, ref := range result.UpstreamResultRefs { evidence = stableStringUnion(evidence, …) }
unfoldable pub union_upstream : List String → List DefenseUpstreamRef → List String
unfolding stable_string_union
union_upstream evidence [] = evidence
union_upstream evidence (r ∷ rs) = union_upstream (stable_string_union evidence r.evidence_refs) rs

unfoldable pub same_ref : Option UpstreamRef → UpstreamRef → Bool
same_ref none l = false
same_ref (some r) l =
    str_eq r.system l.system
    && str_eq r.catalog l.catalog
    && str_eq r.schema l.schema
    && str_eq r.table l.table
    && str_eq r.key l.key

abbrev pub digest_of : VolumeManifest → String
digest_of m = trim_prefix m.content_sha256 "sha256:"

unfoldable pub is_manifest_valid : VolumeManifest → Bool
unfolding trim_prefix valid_sha256
is_manifest_valid m =
    str_eq m.contract_type "janus-volume-payload-manifest"
    && str_eq m.contract_version "1.0"
    && str_eq m.media_type "application/json"
    && str_eq m.encoding "identity"
    && valid_sha256 m.content_sha256
    && str_eq m.reference (append "payload://sha256/" (digest_of m))
    && leb 1 m.size_bytes
    && leb m.size_bytes max_locator_payload_bytes
    && str_eq m.volume_catalog locator_catalog
    && str_eq m.volume_schema "check_generation"
    && str_eq m.volume_name "payloads"

abbrev pub unsigned_defense : DefenseResult → DefenseResult
unsigned_defense r = record r { content_sha256 = ""; size_bytes = 0 }

abbrev pub defense_spec : DefenseCandidate → CandidateSpec
defense_spec pc = record {
  kind = "waf-rule";
  engine = "modsecurity";
  rule_id = pc.candidate_id;
  rule = pc.artifact_content;
  action = derive_rule_action pc.artifact_content;
}

abbrev pub defense_evidence : DefenseResult → DefenseCandidate → List String
defense_evidence r pc =
    union_upstream (stable_string_union r.evidence_refs pc.evidence_refs) r.upstream_result_refs

abbrev pub same_defense_row : DefenseRow → ImmutableResultLocator → Bool
same_defense_row row l =
    str_eq row.run_id l.run_id
    && str_eq row.result_id l.result_id
    && str_eq row.terminal_state l.terminal_state

module _ (calls : RowCalls) where
  unfoldable pub instant : String → Option ℕ
  instant s = elim (calls.parse_time s) [ some t ↦ some t | none ↦ calls.parse_plain s ]

  unfoldable pub same_timestamp : String → String → Bool
  unfolding instant
  same_timestamp a b = elim (instant a) [
    | none ↦ false
    | some s ↦ elim (instant b) [ none ↦ false | some t ↦ s == t ]
  ]

  -- The bytes of a text match a digest and a size.
  unfoldable pub has_digest : String → String → ℕ → Bool
  has_digest bytes sha256 size = str_eq (calls.digest bytes) sha256 && len bytes == size

  unfoldable pub same_defense_identity : DefenseResult → ImmutableResultLocator → Bool
  unfolding same_timestamp same_ref
  same_defense_identity r l =
      str_eq r.capability l.capability
      && str_eq r.contract_id l.contract_id
      && str_eq r.request_id l.request_id
      && str_eq r.correlation_id l.correlation_id
      && str_eq r.run_id l.run_id
      && str_eq r.result_id l.result_id
      && str_eq r.status l.status
      && str_eq r.terminal_state l.terminal_state
      && same_timestamp r.created_at l.created_at
      && same_ref r.result_ref l.result_ref

  -- The unsigned result's bytes have the digest and size that the result and the locator say.
  unfoldable pub is_signed : DefenseResult → String → ImmutableResultLocator → Bool
  unfolding has_digest
  is_signed r unsigned l =
      has_digest unsigned r.content_sha256 r.size_bytes
      && str_eq r.content_sha256 l.content_sha256
      && r.size_bytes == l.size_bytes

  unfoldable pub verify_candidate : DefenseResult → Result String (CandidateSpec × List String)
  verify_candidate r = elim r.primary_candidate [
    | none ↦ err "Defense Generation result has no supported ModSecurity candidate"
    | some pc ↦
        if not (str_eq pc.artifact_type "modsecurity-rule")
          || is_blank pc.candidate_id
          || is_blank pc.artifact_content
        then err "Defense Generation result has no supported ModSecurity candidate"
        else if not (str_eq pc.artifact_hash (calls.digest pc.artifact_content))
        then err "Defense Generation candidate artifact_hash differs from artifact_content"
        else ok (defense_spec pc, defense_evidence r pc)
  ]

  unfoldable pub verify_defense_result :
      DefenseResult → ImmutableResultLocator → Result String (CandidateSpec × List String)
  unfolding same_defense_identity is_signed verify_candidate
  verify_defense_result r l =
      if not (same_defense_identity r l)
      then err "Defense Generation logical result identity differs from locator"
      else elim (calls.marshal_defense (unsigned_defense r)) [
        | none ↦ err "Defense Generation result could not be encoded"
        | some unsigned ↦
            if not (is_signed r unsigned l)
            then err "Defense Generation physical/logical integrity verification failed"
            else verify_candidate r
      ]

  unfoldable pub verify_defense_row :
      DefenseRow → ImmutableResultLocator → Result String (CandidateSpec × List String)
  unfolding verify_defense_result
  verify_defense_row row l =
      if not (same_defense_row row l)
      then err "Defense Generation physical row identity differs from locator"
      else elim (calls.decode_defense row.result_json) [
        | none ↦ err "decode Defense Generation result_json"
        | some r ↦ verify_defense_result r l
      ]
