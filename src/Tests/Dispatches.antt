-- ===== src/Tests/Dispatches.antt =====
-- Callback headers and deliveries at concrete inputs (api/callback.go).
use test_defense_validation.Base.{
  ◌≡◌, String, List, ℕ, true, Option, if◌then◌else◌, some, false, none, refl, [], is_ok, err, ok,
  ◌↔◌, ◌+◌,
}
use test_defense_validation.Callback.Headers.{
  callback_metadata, CallbackMetadata, Url, callback_host_not_allowed, is_empty,
}
use test_defense_validation.Ledger.Steps.{run_worker, run_service}
use test_defense_validation.Callback.Dispatch.{
  retry, retryable_callback_status, Reason, natural, retry_after, deliver, retry, replied,
  postponed, recorded, returned_status, succeeded, callback_retry_delay,
}
use test_defense_validation.Ledger.Row.{Row}
use test_defense_validation.Text.{trim_space, codes, lower, eq_codes}
use test_defense_validation.Ledger.Tables.{new_row}
use test_defense_validation.Tests.Rows.{limits, claimed_row, submission, to_claimed}
use test_defense_validation.Callback.Acceptance.{IsAcceptable, accepted_iff}
use test_defense_validation.Callback.Outcomes.{succeeded_iff, due_again, report_recorded}
use test_defense_validation.Ledger.Outbox.{claimable}
use test_defense_validation.Callback.Jitter.{jittered, jitter, rounded, ulp}
use test_defense_validation.Ledger.Reachable.{Steps-IsValid}

-- A reader of one URL.
abbrev parsed : Url
parsed = record {
  scheme = codes "https";
  host = codes "example.org:8443";
  hostname = codes "example.org";
  user = false;
  fragment = [];
}

abbrev parse : List ℕ → Option Url
parse cs = if eq_codes cs (codes "https://example.org:8443/c") then some parsed else none

accepted_iff_example :
    let m : CallbackMetadata = record {
      url = trim_space (codes " https://example.org:8443/c");
      workflow_id = trim_space (codes "workflow");
      signal = trim_space (codes "janus.capability-completion.v1");
    } in
    (callback_metadata lower parse
        (codes " https://example.org:8443/c")
        (codes "workflow")
        (codes "janus.capability-completion.v1")
        (codes "a.test, EXAMPLE.org")
      ≡ ok (some m))
    ↔ IsAcceptable lower parse (codes "a.test, EXAMPLE.org") m
accepted_iff_example =
    accepted_iff lower parse (codes " https://example.org:8443/c") (codes "workflow")
      (codes "janus.capability-completion.v1") (codes "a.test, EXAMPLE.org")

header_accepted :
    is_ok (
      callback_metadata lower parse
        (codes " https://example.org:8443/c")
        (codes "workflow")
        (codes "janus.capability-completion.v1")
        (codes "a.test, EXAMPLE.org"))
    ≡ true
unfolding callback_metadata trim_space eq_codes lower
header_accepted = refl

host_refused :
    callback_metadata lower parse
      (codes "https://example.org:8443/c")
      (codes "workflow")
      (codes "janus.capability-completion.v1")
      (codes "a.test,b.test")
    ≡ err callback_host_not_allowed
unfolding callback_metadata trim_space eq_codes lower
host_refused = refl

-- rand.Float64() = 0.5.
abbrev half : ℕ
half = 4503599627370496

-- The third attempt waits for 30 seconds, and the least jitter of five seconds is four.
third_delay : callback_retry_delay half 2 ≡ 30000000000
unfolding callback_retry_delay jittered jitter rounded ulp
third_delay = refl

least_delay : callback_retry_delay 0 0 ≡ 4000000000
unfolding callback_retry_delay jittered jitter rounded ulp
least_delay = refl

abbrev no_time : List ℕ → Option ℕ
no_time cs = none

asks_120 : natural (trim_space (codes " 120 ")) ≡ some 120
unfolding natural trim_space
asks_120 = refl

retries_503 : retryable_callback_status 503 ≡ true
unfolding retryable_callback_status
retries_503 = refl

-- A Retry-After of 18446744074 seconds wraps around to less than a third of a second.
asks_too_much : retry_after no_time (codes "18446744074") 0 ≡ 290448384
unfolding retry_after natural trim_space
asks_too_much = refl

succeeded_iff_example :
    (deliver half no_time (codes "token") true true 0 0 (replied 202 []) ≡ succeeded) ↔ (
      (is_empty (codes "token") ≡ false)
      × (true ≡ true)
      × (true ≡ true)
      × ((header : List ℕ) × (replied 202 [] ≡ replied 202 header)))
succeeded_iff_example = succeeded_iff half no_time (codes "token") true true 0 0 (replied 202 [])

abbrev no_text : Reason → String
no_text c = "reason"

abbrev claim_lease : String
claim_lease = "callback-1"

claimed_lease : claimed_row.callback_lease_token ≡ some claim_lease
unfolding run_worker run_service new_row
claimed_lease = refl

report_recorded_example :
    (q : Row) × (run_service limits 150
        (recorded no_text claimed_row.run_id claim_lease (postponed 20 (returned_status 503)))
        claimed_row
      ≡ some q)
    × (q.callback_attempt ≡ claimed_row.callback_attempt + 1)
    × (q.callback_lease_token ≡ none)
    × ((at : ℕ) → claimable at q ≡ due_again 150 (postponed 20 (returned_status 503)) at)
report_recorded_example =
    report_recorded limits 150 no_text claim_lease (postponed 20 (returned_status 503)) claimed_row
      ((Steps-IsValid limits submission to_claimed).2) claimed_lease
