-- ===== src/Tests/Codecs.antt =====
-- A codec for one result, signed and unsigned: an instance of what is relied on of encoding/json.
use test_defense_validation.Base.{
  ℕ, String, Option, some, none, Bool, true, false, ◌&&◌, str_eq, eq_iff, ◌≡◌, ◌≢◌, arith,
  if◌then◌else◌, ◌==◌, List, [], ◌⊎◌, inl, inr, refl,
}
use test_defense_validation.Outcome.{RunOutcome, Codec, IsFaithful, raw_kept}

abbrev pub sample : String → ℕ → RunOutcome
sample digest size = record {
  capability = "defense-validation";
  contract_id = "defense-validation@1.0";
  request_id = "request-1";
  run_id = "run-1";
  result_id = "result-1";
  terminal_state = "success";
  status = "resolved";
  correlation_id = "correlation-1";
  result_ref = none;
  evidence_refs = none;
  request_sha256 = "";
  upstream_inputs = none;
  input_provenance = none;
  profile_id = "";
  application_unit = none;
  candidate = none;
  detail = "";
  steps = [];
  prose_summary = "";
  limitations = [];
  content_sha256 = digest;
  size_bytes = size;
  created_at = 100;
}

abbrev absent {ℓ} : {A : Type ℓ} → Option A → Bool
absent none = true
absent (some a) = false

abbrev nothing {ℓ} : {A : Type ℓ} → List A → Bool
nothing [] = true
nothing _ = false

abbrev bare : RunOutcome → Bool
bare o =
    absent o.result_ref
    && absent o.evidence_refs
    && absent o.upstream_inputs
    && absent o.input_provenance
    && absent o.application_unit
    && absent o.candidate
    && nothing o.steps
    && nothing o.limitations

abbrev heads : RunOutcome → RunOutcome → Bool
heads o s =
    str_eq o.capability s.capability
    && str_eq o.contract_id s.contract_id
    && str_eq o.request_id s.request_id
    && str_eq o.run_id s.run_id
    && str_eq o.result_id s.result_id
    && str_eq o.terminal_state s.terminal_state
    && str_eq o.status s.status
    && str_eq o.correlation_id s.correlation_id

abbrev tails : RunOutcome → RunOutcome → Bool
tails o s =
    str_eq o.request_sha256 s.request_sha256
    && str_eq o.profile_id s.profile_id
    && str_eq o.detail s.detail
    && str_eq o.prose_summary s.prose_summary
    && str_eq o.content_sha256 s.content_sha256
    && o.size_bytes == s.size_bytes
    && o.created_at == s.created_at

unfoldable same : RunOutcome → RunOutcome → Bool
same o s = bare o && heads o s && tails o s

same_sound :
    (o : RunOutcome) (digest : String) (size : ℕ)
    → same o (sample digest size) ≡ true
    → o ≡ sample digest size
unfolding same
same_sound o digest size h = ground (
  arith,
  eq_iff o.capability "defense-validation",
  eq_iff o.contract_id "defense-validation@1.0",
  eq_iff o.request_id "request-1",
  eq_iff o.run_id "run-1",
  eq_iff o.result_id "result-1",
  eq_iff o.terminal_state "success",
  eq_iff o.status "resolved",
  eq_iff o.correlation_id "correlation-1",
  eq_iff o.request_sha256 "",
  eq_iff o.profile_id "",
  eq_iff o.detail "",
  eq_iff o.prose_summary "",
  eq_iff o.content_sha256 digest,
)

abbrev encoded : Bool → Bool → Option String
encoded true _ = some "unsigned"
encoded false true = some "signed"
encoded false false = none

encoded_cases :
    (a b : Bool) (p : String)
    → encoded a b ≡ some p
    → ((a ≡ true) × (p ≡ "unsigned")) ⊎ ((b ≡ true) × (p ≡ "signed"))
encoded_cases true b p h = inl (refl, ground arith)
encoded_cases false true p h = inr (refl, ground arith)
encoded_cases false false p h = cc

unfoldable pub sample_marshal : RunOutcome → Option String
unfolding same
sample_marshal o = encoded (same o (sample "" 0)) (same o (sample "sha256:0" 8))

unfoldable pub sample_unmarshal : String → Option RunOutcome
sample_unmarshal p =
    if str_eq p "unsigned"
    then some (sample "" 0)
    else if str_eq p "signed"
    then some (sample "sha256:0" 8)
    else none

abbrev pub sample_codec : Codec
sample_codec = record {
  marshal = sample_marshal;
  unmarshal = sample_unmarshal;
  marshal_completion = λ c. some "completion";
  canonical = λ p. some p;
  sha256 = λ p. "sha256:0";
  size = λ p. 8;
}

reads_unsigned : sample_unmarshal "unsigned" ≡ some (sample "" 0)
unfolding sample_unmarshal
reads_unsigned = refl

reads_signed : sample_unmarshal "signed" ≡ some (sample "sha256:0" 8)
unfolding sample_unmarshal
reads_signed = refl

marshal_cases :
    (o : RunOutcome) (p : String)
    → sample_marshal o ≡ some p
    → ((same o (sample "" 0) ≡ true) × (p ≡ "unsigned"))
      ⊎ ((same o (sample "sha256:0" 8) ≡ true) × (p ≡ "signed"))
unfolding sample_marshal
marshal_cases o p h = encoded_cases (same o (sample "" 0)) (same o (sample "sha256:0" 8)) p h

-- A raw member that is written as an empty array, whatever it is.
abbrev emptied : String → Option String
emptied raw = some "[]"

sample_reads_back :
    (o : RunOutcome) (p : String)
    → sample_marshal o ≡ some p
    → sample_unmarshal p ≡ some (raw_kept emptied o)
sample_reads_back o p h = elim (marshal_cases o p h) [
  | inl (e, q) ↦ rw (q, same_sound o "" 0 e) reads_unsigned
  | inr (e, q) ↦ rw (q, same_sound o "sha256:0" 8 e) reads_signed
]

same-emptied : (o s : RunOutcome) → same (raw_kept emptied o) s ≡ same o s
unfolding same
same-emptied o s = ground arith

sample_compacted : (o : RunOutcome) → sample_marshal (raw_kept emptied o) ≡ sample_marshal o
unfolding sample_marshal
sample_compacted o = rw (same-emptied o (sample "" 0), same-emptied o (sample "sha256:0" 8)) refl

abbrev empty : String
empty = ""

abbrev unsigned_text : String
unsigned_text = "unsigned"

abbrev signed_text : String
signed_text = "signed"

sample_not_empty : (o : RunOutcome) (p : String) → sample_marshal o ≡ some p → p ≢ empty
sample_not_empty o p h e = elim (marshal_cases o p h) [
  | inl (_, q) ↦ ground (arith, q, eq_iff unsigned_text empty)
  | inr (_, q) ↦ ground (arith, q, eq_iff signed_text empty)
]

pub sample-IsFaithful : IsFaithful sample_codec
sample-IsFaithful = record {
  compact = emptied;
  reads_back = sample_reads_back;
  compacted = sample_compacted;
  not_empty = sample_not_empty;
}
