-- ===== src/Tests/Workers.antt =====
-- executeOne on the leased row of Tests/Rows (api/worker.go).
use Prim.Native.Nat.{◌^◌, min}
use test_defense_validation.Base.{◌≡◌, String, ◌*◌, true, some, none, false, is_some, refl, arith}
use test_defense_validation.Worker.Interleaving.{
  Moves, then, start_here, executed, flagged, lost, other, missed, beaten, wrote, interleaved_Steps,
}
use test_defense_validation.Worker.Program.{owned, done}
use test_defense_validation.Worker.Execute.{
  Config, execute_one, claimed, verification_delay, five_minutes,
}
use test_defense_validation.Ledger.Steps.{
  run_worker, run_service, Steps, cancels_run, stages, beats, cancels, by_service,
}
use test_defense_validation.Ledger.Row.{Row, coalesce, running}
use test_defense_validation.Tests.Codecs.{sample_codec, sample_marshal, sample_unmarshal, sample}
use test_defense_validation.Ledger.Tables.{new_row}
use test_defense_validation.Tests.Rows.{limits, leased_row, submission, to_leased}
use test_defense_validation.Worker.Backoff.{verification_delay_lem}
use test_defense_validation.Outcome.{
  digest_bytes, canonical_result_payload, set_canonical_integrity,
  validate_canonical_result_payload, digest_bytes,
}
use test_defense_validation.Ledger.Reachable.{Steps-IsValid}

abbrev config : Config
config = record {
  codec = sample_codec;
  has_publisher = true;
  can_verify = true;
  verification_backoff = 30000;
}

-- The executor answers, then the client cancels, then the worker finds that it cannot stage.
abbrev requested_row : Row
requested_row = coalesce (run_service limits 115 (cancels "run-1") leased_row) leased_row

abbrev beaten_row : Row
beaten_row =
    coalesce (run_worker limits 121 "run-1" "worker-1" "token-1" (beats 60) requested_row)
      leased_row

abbrev canceled_row : Row
canceled_row =
    coalesce (run_worker limits 122 "run-1" "worker-1" "token-1" cancels_run beaten_row) leased_row

request_step : run_service limits 115 (cancels "run-1") leased_row ≡ some requested_row
unfolding run_service new_row
request_step = refl

stage_missed :
    run_worker limits 120 "run-1" "worker-1" "token-1" (stages "signed") requested_row ≡ none
unfolding run_worker run_service new_row
stage_missed = refl

beat_step :
    run_worker limits 121 "run-1" "worker-1" "token-1" (beats 60) requested_row ≡ some beaten_row
unfolding run_worker run_service new_row
beat_step = refl

cancel_step :
    run_worker limits 122 "run-1" "worker-1" "token-1" cancels_run beaten_row ≡ some canceled_row
unfolding run_worker run_service new_row
cancel_step = refl

cancel_race :
    Moves limits "run-1" "worker-1" "token-1" leased_row
      (execute_one config (claimed sample_codec leased_row))
      canceled_row
      done
unfolding execute_one claimed run_service new_row canonical_result_payload set_canonical_integrity
    sample_marshal sample_unmarshal validate_canonical_result_payload digest_bytes
cancel_race =
    then
      (then
        (then
          (then
            (then
              (then (then start_here (executed _ (some (sample "sha256:0" 8)))) (flagged _ false))
              (lost _ false))
            (other (by_service 115 (cancels "run-1") request_step)))
          (missed 120 (stages "signed") _ stage_missed))
        (beaten 121 60 _ (owned true) beat_step))
      (wrote 122 cancels_run _ cancel_step)

leased_status : leased_row.status ≡ running
unfolding run_service new_row
leased_status = refl

nothing_decodes :
    (b : String) → leased_row.result_payload ≡ some b → is_some (sample_codec.unmarshal b) ≡ true
unfolding run_service new_row
nothing_decodes b e = cc

interleaved_Steps_example : Steps limits leased_row canceled_row
interleaved_Steps_example =
    interleaved_Steps limits config "run-1" "worker-1" "token-1"
      ((Steps-IsValid limits submission to_leased).1) leased_status nothing_decodes cancel_race

verification_delay_lem_example : verification_delay 30000 5 ≡ min (30000 * 2 ^ 5) five_minutes
verification_delay_lem_example = verification_delay_lem 30000 5 (omega arith)
