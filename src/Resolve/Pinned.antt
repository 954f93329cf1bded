-- ===== src/Resolve/Pinned.antt =====
-- What stands behind a rule that is reported by locator.
use Prim.Native.String.{len}
use test_defense_validation.Base.{
  ℕ, ◌≡◌, inl, inr, true, some, String, List, arith, ok, Option-cases, eq_iff,
}
use test_defense_validation.Outcome.{CandidateSpec}
use test_defense_validation.Resolve.Request.{ImmutableResultLocator}
use test_defense_validation.Resolve.Rows.{
  DefenseRow, RowCalls, DefenseResult, DefenseCandidate, verify_defense_row, verify_candidate,
  is_signed, has_digest, unsigned_defense, defense_spec, same_defense_identity,
}

pub has_digest_sound :
    (calls : RowCalls) (bytes sha256 : String) (size : ℕ)
    → has_digest calls bytes sha256 size ≡ true
    → (calls.digest bytes ≡ sha256) × (len bytes ≡ size)
unfolding has_digest
has_digest_sound calls bytes sha256 size h =
    (ground (arith, eq_iff (calls.digest bytes) sha256), ground arith)

module _ (calls : RowCalls) where
  -- A result that the row carries, with the digest and the size of its unsigned bytes that the
  -- locator pins, and a candidate whose content has the hash that the result declares.
  abbrev pub IsPinned : DefenseRow → ImmutableResultLocator → CandidateSpec → Type 0
  IsPinned row l cand =
      (r : DefenseResult) × (bytes : String) × (pc : DefenseCandidate) × (calls.decode_defense
          row.result_json
        ≡ some r)
      × (same_defense_identity calls r l ≡ true)
      × (calls.marshal_defense (unsigned_defense r) ≡ some bytes)
      × (calls.digest bytes ≡ l.content_sha256)
      × (len bytes ≡ l.size_bytes)
      × (r.primary_candidate ≡ some pc)
      × (calls.digest pc.artifact_content ≡ pc.artifact_hash)
      × (cand ≡ defense_spec pc)

  is_signed_sound :
      (r : DefenseResult) (bytes : String) (l : ImmutableResultLocator)
      → is_signed calls r bytes l ≡ true
      → (calls.digest bytes ≡ l.content_sha256) × (len bytes ≡ l.size_bytes)
  unfolding is_signed
  is_signed_sound r bytes l h =
      let (d, s) = has_digest_sound calls bytes r.content_sha256 r.size_bytes (ground arith) in
      (ground (arith, eq_iff r.content_sha256 l.content_sha256), ground arith)

  verify_candidate_sound :
      (r : DefenseResult) (cand : CandidateSpec) (evidence : List String)
      → verify_candidate calls r ≡ ok (cand, evidence)
      → (pc : DefenseCandidate) × (r.primary_candidate ≡ some pc)
        × (calls.digest pc.artifact_content ≡ pc.artifact_hash)
        × (cand ≡ defense_spec pc)
  unfolding verify_candidate
  verify_candidate_sound r cand evidence h = elim (Option-cases r.primary_candidate) [
    | inl missing ↦ absurd (ground (arith, missing))
    | inr (pc, e) ↦ (
      pc,
      e,
      ground (arith, e, eq_iff pc.artifact_hash (calls.digest pc.artifact_content)),
      ground (arith, e),
    )
  ]

  pub verify_defense_row_sound :
      (row : DefenseRow) (l : ImmutableResultLocator) (cand : CandidateSpec)
      (evidence : List String)
      → verify_defense_row calls row l ≡ ok (cand, evidence)
      → IsPinned row l cand
  unfolding verify_defense_row
  verify_defense_row_sound row l cand evidence h =
      elim (Option-cases (calls.decode_defense row.result_json)) [
        | inl missing ↦ absurd (ground (arith, missing))
        | inr (r, decoded) ↦ elim (Option-cases (calls.marshal_defense (unsigned_defense r))) [
          | inl missing ↦ absurd (ground (arith, decoded, missing))
          | inr (bytes, written) ↦
              let (d, s) = is_signed_sound r bytes l (ground (arith, decoded, written)) in
              let (pc, e, f, g) =
                verify_candidate_sound r cand evidence (ground (arith, decoded, written)) in
              (r, bytes, pc, decoded, ground (arith, decoded, written), written, d, s, e, f, g)
        ]
      ]
