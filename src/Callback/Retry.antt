-- ===== src/Callback/Retry.antt =====
-- How long a callback waits before it is tried again (api/callback.go).
use test_defense_validation.Base.{
  ℕ, ◌*◌, ◌≤◌, ◌≡◌, true, false, some, List, [], ◌∷◌, Option, false, arith, refl, ltb,
  if◌then◌else◌, Option, ◌∙◌, sym,
}
use test_defense_validation.Callback.Dispatch.{
  deliver, replied, returned_status, retryable_callback_status, second, Reason, postponed, schedule,
  callback_retry_delay, retry, duration, retry_after, natural,
}
use test_defense_validation.Text.{trim_space}
use test_defense_validation.Callback.Headers.{is_empty}

-- The schedule does not get shorter with the attempts.
pub schedule_grows : (a b : ℕ) → a ≤ b → schedule a ≤ schedule b
unfolding schedule
schedule_grows a b h = ground arith

duration_exact : (s : ℕ) → s ≤ 9223372036 → duration s ≡ s * second
unfolding duration
duration_exact s h = ground arith

natural_present : (v : List ℕ) (s : ℕ) → natural v ≡ some s → is_empty v ≡ false
unfolding natural
natural_present [] s h = cc
natural_present (c ∷ cs) s h = refl

-- A Retry-After in seconds, below the bound of time.Duration, is the time that is waited for.
pub retry_after_exact :
    (parse_time : List ℕ → Option ℕ) (header : List ℕ) (now s : ℕ)
    → natural (trim_space header) ≡ some s
    → s ≤ 9223372036
    → retry_after parse_time header now ≡ s * second
unfolding retry_after
retry_after_exact parse_time header now s e h =
    ground (arith, natural_present (trim_space header) s e, duration_exact s h)

at_least : (d after : ℕ) → after ≤ (if ltb d after then after else d)
at_least d after = ground arith

retry_waits :
    (draw attempt after : ℕ) (cause : Reason)
    → (d : ℕ) × (retry draw attempt after cause ≡ postponed d cause) × (after ≤ d)
unfolding retry
retry_waits draw attempt after cause = (_, refl, at_least (callback_retry_delay draw attempt) after)

retries_status :
    (parse_time : List ℕ → Option ℕ) (header token : List ℕ) (draw now attempt status : ℕ)
    → is_empty token ≡ false
    → retryable_callback_status status ≡ true
    → deliver draw parse_time token true true now attempt (replied status header)
      ≡ retry draw attempt (retry_after parse_time header now) (returned_status status)
unfolding deliver
retries_status parse_time header token draw now attempt status t k = ground arith

-- A callback that the server answers with a status that allows a retry and with a Retry-After of s
-- seconds, below the bound of time.Duration, is postponed by at least s seconds.
pub retry_after_kept :
    (parse_time : List ℕ → Option ℕ) (header token : List ℕ) (draw now attempt status s : ℕ)
    → is_empty token ≡ false
    → retryable_callback_status status ≡ true
    → natural (trim_space header) ≡ some s
    → s ≤ 9223372036
    → (d : ℕ) × (deliver draw parse_time token true true now attempt (replied status header)
        ≡ postponed d (returned_status status))
      × (s * second ≤ d)
retry_after_kept parse_time header token draw now attempt status s t k e h =
    let (d, p, w) =
      retry_waits draw attempt (retry_after parse_time header now) (returned_status status) in
    (
      d,
      retries_status parse_time header token draw now attempt status t k ∙ p,
      rw (sym (retry_after_exact parse_time header now s e h)) w,
    )
