-- ===== src/Outcome.antt =====
-- The result envelope, its integrity and its canonical bytes (api/result.go; setCanonicalIntegrity
-- of api/lifecycle.go; canonicalResultPayload and validateCanonicalResultPayload of
-- api/lifecycle_store.go).
pub mod Canonical
use test_defense_validation.Base.{
  ℕ, ◌≡◌, ◌≢◌, Bool, true, false, not, ◌&&◌, ◌||◌, Option, none, some, String, str_eq, List, [],
  ◌∷◌, ◌==◌, if◌then◌else◌, Result, ok, err,
}

pub record CandidateSpec : Type 0 where
  pub kind : String
  pub engine : String
  pub rule_id : String
  pub rule : String
  pub action : String

pub record ResultRef : Type 0 where
  pub system : String
  pub catalog : String
  pub schema : String
  pub table : String
  pub key : String
  pub placeholder : Bool

-- Raw JSON members and records that the modelled code only carries along are texts.
pub record RunOutcome : Type 0 where
  pub capability : String
  pub contract_id : String
  pub request_id : String
  pub run_id : String
  pub result_id : String
  pub terminal_state : String
  pub status : String
  pub correlation_id : String
  pub result_ref : Option ResultRef
  pub evidence_refs : Option (List String)
  pub request_sha256 : String
  pub upstream_inputs : Option String
  pub input_provenance : Option String
  pub profile_id : String
  pub application_unit : Option String
  pub candidate : Option CandidateSpec
  pub detail : String
  pub steps : List String
  pub prose_summary : String
  pub limitations : List String
  pub content_sha256 : String
  pub size_bytes : ℕ
  pub created_at : ℕ

pub record Completion : Type 0 where
  pub capability : String
  pub contract_id : String
  pub request_id : String
  pub correlation_id : String
  pub run_id : String
  pub result_id : String
  pub status : String
  pub terminal_state : String
  pub result_ref : Option ResultRef
  pub evidence_refs : Option (List String)
  pub content_sha256 : String
  pub size_bytes : ℕ
  pub created_at : ℕ

-- encoding/json on the two records, the RFC 8785 form of a document, SHA-256 with its "sha256:"
-- prefix and the length in bytes.
pub record Codec : Type 0 where
  pub marshal : RunOutcome → Option String
  pub unmarshal : String → Option RunOutcome
  pub marshal_completion : Completion → Option String
  pub canonical : String → Option String
  pub sha256 : String → String
  pub size : String → ℕ

-- A result whose raw member is replaced by what json.Marshal writes of it, compacted and with HTML
-- escaped, or by nothing where it is omitted.
abbrev pub raw_kept : (String → Option String) → RunOutcome → RunOutcome
raw_kept compact o = record o {
  upstream_inputs = elim o.upstream_inputs [ none ↦ none | some raw ↦ compact raw ];
}

-- What is relied on of encoding/json: a decoder reads back what the encoder wrote, with the raw
-- member as it was written; that is written in the same way again; and it is not the empty text.
pub record IsFaithful (codec : Codec) : Type 0 where
  pub compact : String → Option String
  pub reads_back :
      (o : RunOutcome) (p : String)
      → codec.marshal o ≡ some p
      → codec.unmarshal p ≡ some (raw_kept compact o)
  pub compacted : (o : RunOutcome) → codec.marshal (raw_kept compact o) ≡ codec.marshal o
  pub not_empty : (o : RunOutcome) (p : String) → codec.marshal o ≡ some p → p ≢ ""

pub data PayloadError : Type 0 where
  empty_payload undecodable identity_mismatch not_encodable bad_integrity not_canonical :
      PayloadError

unfoldable pub unsigned : RunOutcome → RunOutcome
unsigned o = record o { content_sha256 = ""; size_bytes = 0 }

module _ (codec : Codec) where
  -- The bytes that are hashed: of the unsigned result, in RFC 8785 form under a shared profile.
  unfoldable pub digest_bytes : RunOutcome → Option String
  unfolding unsigned
  digest_bytes o = elim (codec.marshal (unsigned o)) [
    | none ↦ none
    | some bytes ↦ if str_eq o.profile_id "" then some bytes else codec.canonical bytes
  ]

  unfoldable pub set_canonical_integrity : RunOutcome → Option RunOutcome
  set_canonical_integrity o = elim (digest_bytes o) [
    | none ↦ none
    | some bytes ↦
        some (record o { content_sha256 = codec.sha256 bytes; size_bytes = codec.size bytes })
  ]

  same_identity : RunOutcome → RunOutcome → Bool
  same_identity d o =
      str_eq d.run_id o.run_id
      && str_eq d.result_id o.result_id
      && str_eq d.content_sha256 o.content_sha256
      && d.size_bytes == o.size_bytes

  -- The tests on the decoded result, after its identity.
  check_decoded : RunOutcome → String → Option PayloadError
  check_decoded d payload = elim (digest_bytes d) [
    | none ↦ some not_encodable
    | some bytes ↦
        if not (str_eq d.content_sha256 (codec.sha256 bytes) && d.size_bytes == codec.size bytes)
        then some bad_integrity
        else elim (codec.marshal d) [
          | none ↦ some not_encodable
          | some full ↦ if str_eq full payload then none else some not_canonical
        ]
  ]

  -- `none` is acceptance.
  unfoldable pub validate_canonical_result_payload : RunOutcome → String → Option PayloadError
  unfolding same_identity check_decoded
  validate_canonical_result_payload o payload =
      if str_eq payload "" then some empty_payload else elim (codec.unmarshal payload) [
        | none ↦ some undecodable
        | some d ↦ if same_identity d o then check_decoded d payload else some identity_mismatch
      ]

  unfoldable pub canonical_result_payload : RunOutcome → Result PayloadError String
  unfolding validate_canonical_result_payload
  canonical_result_payload o = elim (codec.marshal o) [
    | none ↦ err not_encodable
    | some payload ↦ elim (validate_canonical_result_payload o payload) [
      | some e ↦ err e
      | none ↦ ok payload
    ]
  ]
