-- ===== src/Callback/Acceptance.antt =====
-- Which callback headers are accepted (api/callback.go: callbackMetadataFromHeaders).
use test_defense_validation.Base.{
  ℕ, ◌≡◌, ◌↔◌, true, false, some, List, arith, ok, Option, is_some_value,
}
use test_defense_validation.Text.{codes, trim_space, eq_codes_sound, eq_codes_refl}
use test_defense_validation.Callback.Headers.{
  CallbackMetadata, Url, is_empty, callback_signal, present, callback_host_allowed,
  callback_metadata,
}

module _ (fold : ℕ → ℕ) (parse : List ℕ → Option Url) where
  -- An HTTPS URL with a host that is allowed, without user information and fragment, and the one
  -- signal that is known.
  abbrev pub IsAcceptable : List ℕ → CallbackMetadata → Type 0
  IsAcceptable allowed m =
      (is_empty m.url ≡ false)
      × (is_empty m.workflow_id ≡ false)
      × (m.signal ≡ callback_signal)
      × ((u : Url) × (parse m.url ≡ some u)
          × (u.scheme ≡ codes "https")
          × (is_empty u.host ≡ false)
          × (u.user ≡ false)
          × (is_empty u.fragment ≡ true)
          × (callback_host_allowed fold u.hostname allowed ≡ true))

  accepted_parsed :
      (url workflow signal allowed : List ℕ) (m : CallbackMetadata)
      → callback_metadata fold parse url workflow signal allowed ≡ ok (some m)
      → (u : Url) × (parse m.url ≡ some u)
  unfolding callback_metadata present
  accepted_parsed url workflow signal allowed m h = is_some_value (parse m.url) (ground arith)

  accepted_present :
      (url workflow signal allowed : List ℕ) (m : CallbackMetadata)
      → callback_metadata fold parse url workflow signal allowed ≡ ok (some m)
      → (is_empty m.url ≡ false) × (is_empty m.workflow_id ≡ false) × (m.signal ≡ callback_signal)
  unfolding callback_metadata present
  accepted_present url workflow signal allowed m h =
      ground (arith, eq_codes_sound m.signal callback_signal)

  accepted_url :
      (url workflow signal allowed : List ℕ) (m : CallbackMetadata) (u : Url)
      → callback_metadata fold parse url workflow signal allowed ≡ ok (some m)
      → parse m.url ≡ some u
      → (u.scheme ≡ codes "https")
        × (is_empty u.host ≡ false)
        × (u.user ≡ false)
        × (is_empty u.fragment ≡ true)
        × (callback_host_allowed fold u.hostname allowed ≡ true)
  unfolding callback_metadata present
  accepted_url url workflow signal allowed m u h e =
      ground (arith, eq_codes_sound u.scheme (codes "https"))

  acceptable_accepted :
      (url workflow signal allowed : List ℕ) (u : Url)
      → let m : CallbackMetadata = record {
        url = trim_space url;
        workflow_id = trim_space workflow;
        signal = trim_space signal;
      } in
        is_empty m.url ≡ false
        → is_empty m.workflow_id ≡ false
        → m.signal ≡ callback_signal
        → parse m.url ≡ some u
        → u.scheme ≡ codes "https"
        → is_empty u.host ≡ false
        → u.user ≡ false
        → is_empty u.fragment ≡ true
        → callback_host_allowed fold u.hostname allowed ≡ true
        → callback_metadata fold parse url workflow signal allowed ≡ ok (some m)
  unfolding callback_metadata present
  acceptable_accepted url workflow signal allowed u a b c d e f g h i =
      ground (arith, eq_codes_refl callback_signal, eq_codes_refl (codes "https"))

  -- What callbackMetadataFromHeaders accepts are exactly the trimmed headers that are acceptable:
  -- an HTTPS URL with a host that is allowed, without user information and fragment, a workflow id,
  -- and the one signal that is known.
  pub accepted_iff :
      (url workflow signal allowed : List ℕ)
      → let m : CallbackMetadata = record {
        url = trim_space url;
        workflow_id = trim_space workflow;
        signal = trim_space signal;
      } in
        (callback_metadata fold parse url workflow signal allowed ≡ ok (some m))
        ↔ IsAcceptable allowed m
  accepted_iff url workflow signal allowed = (
    (λ h.
        let (u, e) = accepted_parsed url workflow signal allowed _ h in
        let (a, b, c) = accepted_present url workflow signal allowed _ h in
        let (d, f, g, i, k) = accepted_url url workflow signal allowed _ u h e in
        (a, b, c, (u, e, d, f, g, i, k))),
    λ (a, b, c, (u, e, d, f, g, i, k)).
        acceptable_accepted url workflow signal allowed u a b c e d f g i k,
  )
