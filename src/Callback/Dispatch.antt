-- ===== src/Callback/Dispatch.antt =====
-- One delivery of the dispatcher (api/callback.go: deliver, retry, configurationFailed,
-- retryableCallbackStatus, callbackRetryDelay, retryAfter). Durations and times are in nanoseconds.
use Prim.Native.Nat.{◌^◌}
use test_defense_validation.Base.{
  ℕ, ◌+◌, ◌-◌, ◌*◌, ◌%◌, Bool, not, ◌&&◌, ◌||◌, Option, none, some, String, List, [], ◌∷◌,
  if◌then◌else◌, ◌==◌, leb, ltb,
}
use test_defense_validation.Text.{trim_space}
use test_defense_validation.Ledger.Steps.{ServiceCall, delivers, postpones, gives_up}
use test_defense_validation.Callback.Headers.{is_empty}
use test_defense_validation.Callback.Jitter.{jittered}

abbrev pub second : ℕ
second = 1000000000

-- What the messages of the reports say.
pub data Reason : Type 0 where
  token_not_configured not_encoded no_request : Reason
  transport_error : String → Reason
  returned_status non_retryable_status : ℕ → Reason

pub data Report : Type 0 where
  succeeded : Report
  postponed : ℕ → Reason → Report
  configuration_failed : Reason → Report

-- What client.Do returns: an error, or a response with its status and its Retry-After.
pub data Answer : Type 0 where
  unreachable : String → Answer
  replied : ℕ → List ℕ → Answer

unfoldable pub retryable_callback_status : ℕ → Bool
retryable_callback_status status =
    status == 408
    || status == 425
    || status == 429
    || status == 500
    || status == 502
    || status == 503
    || status == 504

unfoldable pub schedule : ℕ → ℕ
schedule attempt =
    if attempt == 0
    then 5 * second
    else if attempt == 1
    then 15 * second
    else if attempt == 2
    then 30 * second
    else if attempt == 3
    then 60 * second
    else if attempt == 4
    then 300 * second
    else 900 * second

-- `draw` is rand.Float64() in units of 2 ^ -53.
unfoldable pub callback_retry_delay : ℕ → ℕ → ℕ
unfolding schedule
callback_retry_delay draw attempt = jittered draw (schedule attempt)

abbrev pub is_digit : ℕ → Bool
is_digit c = leb b'0' c && leb c b'9'

unfoldable pub read_digits : ℕ → List ℕ → Option ℕ
read_digits n [] = some n
read_digits n (c ∷ cs) =
    let rest = read_digits (n * 10 + (c - b'0')) cs in if is_digit c then rest else none

-- strconv.Atoi where its result is not negative; `none` is an error or a negative number.
unfoldable pub natural : List ℕ → Option ℕ
unfolding read_digits
natural [] = none
natural (c ∷ cs) =
    let minus = c == b'-' in
    let digits = if minus || c == b'+' then cs else c ∷ cs in
    if is_empty digits then none else elim (read_digits 0 digits) [
      | none ↦ none
      | some n ↦ if ltb n (2 ^ 63) && (not minus || n == 0) then some n else none
    ]

-- `time.Duration(seconds) * time.Second` in 64 bits. A negative product is 0 here: it is only
-- compared with a delay that is not negative.
unfoldable pub duration : ℕ → ℕ
duration seconds = let w = seconds * second % 2 ^ 64 in if ltb w (2 ^ 63) then w else 0

-- `parse_time` is http.ParseTime.
unfoldable pub retry_after : (List ℕ → Option ℕ) → List ℕ → ℕ → ℕ
unfolding trim_space natural duration
retry_after parse_time header now =
    let value = trim_space header in
    if is_empty value then 0 else elim (natural value) [
      | some seconds ↦ duration seconds
      | none ↦ elim (parse_time value) [ none ↦ 0 | some at ↦ if ltb now at then at - now else 0 ]
    ]

-- retry.
unfoldable pub retry : ℕ → ℕ → ℕ → Reason → Report
retry draw attempt after cause =
    let delay = callback_retry_delay draw attempt in
    postponed (if ltb delay after then after else delay) cause

-- deliver: `token` is the dispatcher's trimmed token, `encoded` and `requested` tell whether
-- json.Marshal and http.NewRequestWithContext succeed.
module _ (draw : ℕ) (parse_time : List ℕ → Option ℕ) where
  unfoldable pub answered : ℕ → ℕ → Answer → Report
  unfolding retry retry_after retryable_callback_status
  answered now attempt (unreachable cause) = retry draw attempt 0 (transport_error cause)
  answered now attempt (replied status header) =
      if status == 202
      then succeeded
      else if retryable_callback_status status
      then retry draw attempt (retry_after parse_time header now) (returned_status status)
      else configuration_failed (non_retryable_status status)

  unfoldable pub deliver : List ℕ → Bool → Bool → ℕ → ℕ → Answer → Report
  unfolding answered
  deliver token encoded requested now attempt a =
      if is_empty token
      then configuration_failed token_not_configured
      else if not encoded
      then configuration_failed not_encoded
      else if not requested
      then configuration_failed no_request
      else answered now attempt a

-- The statement that records a report; `text` writes the reason.
unfoldable pub recorded : (Reason → String) → String → String → Report → ServiceCall
recorded text id lease succeeded = delivers id lease
recorded text id lease (postponed delay reason) = postpones id lease delay (text reason)
recorded text id lease (configuration_failed reason) = gives_up id lease (text reason)
