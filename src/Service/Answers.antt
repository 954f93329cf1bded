-- ===== src/Service/Answers.antt =====
-- What the handlers show of a run (api/lifecycle.go: handleRunResult, publicRunStatus).
use test_defense_validation.Base.{
  ◌≡◌, Option, some, none, String, true, arith, is_some, Option-cases, inl, inr, is_some_value,
  if◌then◌else◌,
}
use test_defense_validation.Ledger.Row.{Row, completed}
use test_defense_validation.Ledger.Invariant.{IsBounded}
use test_defense_validation.Ledger.Steps.{Limits}
use test_defense_validation.Outcome.{Codec, Completion}
use test_defense_validation.Service.Items.{
  is_completed, get_status, public_run_status, shows_result, result_reply,
}

bounded_payload :
    (l : Limits) (r : Row) → IsBounded l r → r.status ≡ completed → is_some r.result_payload ≡ true
bounded_payload l r v e = ground arith

payload_shown :
    (codec : Codec) (view : String → String) (r : Row) (p : String)
    → r.status ≡ completed
    → r.result_payload ≡ some p
    → is_some (codec.unmarshal p) ≡ true
    → result_reply codec view r ≡ shows_result (view p)
unfolding result_reply
payload_shown codec view r p e n d = ground arith

-- A completed run that keeps its bounds is answered with the view of its canonical payload, where
-- that decodes: the error that no payload is there does not occur.
pub completed_shown :
    (l : Limits) (codec : Codec) (view : String → String) (r : Row)
    → IsBounded l r
    → r.status ≡ completed
    → ((p : String) → r.result_payload ≡ some p → is_some (codec.unmarshal p) ≡ true)
    → (p : String) × (r.result_payload ≡ some p)
      × (result_reply codec view r ≡ shows_result (view p))
completed_shown l codec view r v e d =
    let (p, n) = is_some_value r.result_payload (bounded_payload l r v e) in
    (p, n, payload_shown codec view r p e n (d p n))

-- The status of a run that keeps its bounds carries a completion exactly if the run is completed,
-- and the result id only then. The stored completions are taken to decode.
pub completion_shown :
    (l : Limits) (read : String → Option Completion) (r : Row)
    → IsBounded l r
    → ((c : String) → r.completion ≡ some c → is_some (read c) ≡ true)
    → let s = public_run_status (get_status read r) in
      (is_some s.completion ≡ is_completed r.status)
      × (s.result_id ≡ (if is_completed r.status then (get_status read r).result_id else none))
unfolding public_run_status get_status
completion_shown l read r v d = elim (Option-cases r.completion) [
  | inl n ↦ ground (arith, n)
  | inr (c, n) ↦ ground (arith, n, d c n)
]
