-- ===== src/Outcome/Canonical.antt =====
-- Signing and checking a result agree (api/lifecycle.go, api/lifecycle_store.go).
use test_defense_validation.Base.{
  ℕ, ◌≡◌, ◌≢◌, true, none, some, String, eq_iff, ok, arith, Option-cases, sym, is_some_value, refl,
  ◌∙◌, inl, inr, Option,
}
use test_defense_validation.Outcome.{
  RunOutcome, Codec, IsFaithful, digest_bytes, set_canonical_integrity,
  validate_canonical_result_payload, canonical_result_payload, check_decoded, same_identity,
  raw_kept, unsigned,
}

module _ (codec : Codec) where
  -- The signature fields are not among the signed bytes.
  digest-signature :
      (o : RunOutcome) (digest : String) (size : ℕ)
      → digest_bytes codec (record o { content_sha256 = digest; size_bytes = size })
        ≡ digest_bytes codec o
  unfolding digest_bytes
  digest-signature o digest size = refl

  pub digest-signed :
      (o s : RunOutcome) (bytes : String)
      → digest_bytes codec o ≡ some bytes
      → set_canonical_integrity codec o ≡ some s
      → (digest_bytes codec s ≡ some bytes)
        × (s.content_sha256 ≡ codec.sha256 bytes)
        × (s.size_bytes ≡ codec.size bytes)
  unfolding set_canonical_integrity
  digest-signed o s bytes e h =
      ground (arith, digest-signature o (codec.sha256 bytes) (codec.size bytes))

  pub signed_bytes :
      (o s : RunOutcome)
      → set_canonical_integrity codec o ≡ some s
      → (bytes : String) × (digest_bytes codec o ≡ some bytes)
  unfolding set_canonical_integrity
  signed_bytes o s h = is_some_value (digest_bytes codec o) (ground arith)

  check_signed :
      (s : RunOutcome) (bytes p : String)
      → digest_bytes codec s ≡ some bytes
      → s.content_sha256 ≡ codec.sha256 bytes
      → s.size_bytes ≡ codec.size bytes
      → codec.marshal s ≡ some p
      → check_decoded codec s p ≡ none
  unfolding check_decoded
  check_signed s bytes p e d z m =
      ground (arith, eq_iff s.content_sha256 (codec.sha256 bytes), eq_iff p p)

  -- The raw member is no part of the identity, and it does not matter to the encodings.
  same_identity-raw_kept :
      (compact : String → Option String) (s : RunOutcome)
      → same_identity codec (raw_kept compact s) s ≡ true
  unfolding same_identity
  same_identity-raw_kept compact s = ground (
    arith,
    eq_iff s.run_id s.run_id,
    eq_iff s.result_id s.result_id,
    eq_iff s.content_sha256 s.content_sha256,
  )

  digest-raw_kept :
      (f : IsFaithful codec) (s : RunOutcome)
      → digest_bytes codec (raw_kept f.compact s) ≡ digest_bytes codec s
  unfolding digest_bytes unsigned
  digest-raw_kept f s = rw (digest_bytes, f.compacted (unsigned s)) refl

  validate_signed :
      (s d : RunOutcome) (p : String)
      → p ≢ ""
      → codec.unmarshal p ≡ some d
      → same_identity codec d s ≡ true
      → check_decoded codec d p ≡ none
      → validate_canonical_result_payload codec s p ≡ none
  unfolding validate_canonical_result_payload
  validate_signed s d p n u i c = ground (arith, eq_iff p "")

  -- A result that setCanonicalIntegrity has signed and that can be encoded is accepted, with the
  -- bytes of its encoding, also where its raw member is not written as it stands.
  pub signed_accepted :
      (o s : RunOutcome) (p : String)
      → IsFaithful codec
      → set_canonical_integrity codec o ≡ some s
      → codec.marshal s ≡ some p
      → canonical_result_payload codec s ≡ ok p
  unfolding canonical_result_payload
  signed_accepted o s p f h m =
      let (bytes, e) = signed_bytes o s h in
      let (d, a, z) = digest-signed o s bytes e h in
      let kept = raw_kept f.compact s in
      let c = check_signed kept bytes p (digest-raw_kept f s ∙ d) a z (f.compacted s ∙ m) in
      ground (
        arith,
        validate_signed s kept p (f.not_empty s p m) (f.reads_back s p m)
            (same_identity-raw_kept f.compact s) c,
      )

  accepted_decoded :
      (o : RunOutcome) (p : String)
      → validate_canonical_result_payload codec o p ≡ none
      → (d : RunOutcome) × (codec.unmarshal p ≡ some d)
  unfolding validate_canonical_result_payload
  accepted_decoded o p h = is_some_value (codec.unmarshal p) (ground arith)

  accepted_checked :
      (o d : RunOutcome) (p : String)
      → validate_canonical_result_payload codec o p ≡ none
      → codec.unmarshal p ≡ some d
      → (check_decoded codec d p ≡ none)
        × (d.run_id ≡ o.run_id)
        × (d.result_id ≡ o.result_id)
        × (d.content_sha256 ≡ o.content_sha256)
  unfolding validate_canonical_result_payload same_identity
  accepted_checked o d p h u = ground (
    arith,
    eq_iff d.run_id o.run_id,
    eq_iff d.result_id o.result_id,
    eq_iff d.content_sha256 o.content_sha256,
  )

  checked_bytes :
      (d : RunOutcome) (p : String)
      → check_decoded codec d p ≡ none
      → (bytes : String) × (digest_bytes codec d ≡ some bytes)
  unfolding check_decoded
  checked_bytes d p c = is_some_value (digest_bytes codec d) (ground arith)

  checked_signed :
      (d : RunOutcome) (p bytes : String)
      → check_decoded codec d p ≡ none
      → digest_bytes codec d ≡ some bytes
      → (codec.marshal d ≡ some p)
        × (d.content_sha256 ≡ codec.sha256 bytes)
        × (d.size_bytes ≡ codec.size bytes)
  unfolding check_decoded
  checked_signed d p bytes c e = elim (Option-cases (codec.marshal d)) [
    | inl m ↦ absurd (ground (arith, m))
    | inr (full, m) ↦ ground (arith, m, eq_iff full p, eq_iff d.content_sha256 (codec.sha256 bytes))
  ]

  -- Bytes that are accepted for a result decode to one with its identity and digest, are the
  -- canonical encoding of that, and carry the digest and the size of its unsigned form.
  pub accepted_sound :
      (o : RunOutcome) (p : String)
      → validate_canonical_result_payload codec o p ≡ none
      → (d : RunOutcome) × (bytes : String) × (codec.unmarshal p ≡ some d)
        × (codec.marshal d ≡ some p)
        × (digest_bytes codec d ≡ some bytes)
        × (d.content_sha256 ≡ codec.sha256 bytes)
        × (d.size_bytes ≡ codec.size bytes)
        × (d.run_id ≡ o.run_id)
        × (d.result_id ≡ o.result_id)
        × (o.content_sha256 ≡ codec.sha256 bytes)
  accepted_sound o p h =
      let (d, u) = accepted_decoded o p h in
      let (c, r, i, g) = accepted_checked o d p h u in
      let (bytes, e) = checked_bytes d p c in
      let (m, s, z) = checked_signed d p bytes c e in (d, bytes, u, m, e, s, z, r, i, sym g ∙ s)
