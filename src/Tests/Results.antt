-- ===== src/Tests/Results.antt =====
-- Signing and checking a concrete result (api/lifecycle.go, api/lifecycle_store.go).
use test_defense_validation.Base.{◌≡◌, String, some, ok, none, refl}
use test_defense_validation.Outcome.{
  canonical_result_payload, RunOutcome, validate_canonical_result_payload, set_canonical_integrity,
  digest_bytes, identity_mismatch,
}
use test_defense_validation.Tests.Codecs.{
  sample_marshal, sample_unmarshal, sample, sample_codec, sample-IsFaithful,
}
use test_defense_validation.Outcome.Canonical.{accepted_sound, signed_accepted}

abbrev signed : RunOutcome
signed = sample "sha256:0" 8

signs : set_canonical_integrity sample_codec (sample "" 0) ≡ some signed
unfolding set_canonical_integrity digest_bytes sample_marshal
signs = refl

encodes : sample_marshal signed ≡ some "signed"
unfolding sample_marshal
encodes = refl

signed_accepted_example : canonical_result_payload sample_codec signed ≡ ok "signed"
signed_accepted_example =
    signed_accepted sample_codec (sample "" 0) signed "signed" sample-IsFaithful signs encodes

accepts : validate_canonical_result_payload sample_codec signed "signed" ≡ none
unfolding validate_canonical_result_payload digest_bytes sample_marshal sample_unmarshal
accepts = refl

accepted_sound_example :
    (d : RunOutcome) × (bytes : String) × (sample_codec.unmarshal "signed" ≡ some d)
    × (sample_codec.marshal d ≡ some "signed")
    × (digest_bytes sample_codec d ≡ some bytes)
    × (d.content_sha256 ≡ sample_codec.sha256 bytes)
    × (d.size_bytes ≡ sample_codec.size bytes)
    × (d.run_id ≡ signed.run_id)
    × (d.result_id ≡ signed.result_id)
    × (signed.content_sha256 ≡ sample_codec.sha256 bytes)
accepted_sound_example = accepted_sound sample_codec signed "signed" accepts

-- A result whose size is changed after it was signed is refused.
tampered_refused :
    validate_canonical_result_payload sample_codec (sample "sha256:0" 9) "signed"
    ≡ some identity_mismatch
unfolding validate_canonical_result_payload sample_unmarshal
tampered_refused = refl
