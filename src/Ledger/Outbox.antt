-- ===== src/Ledger/Outbox.antt =====
-- The callback outbox (api/lifecycle_store.go: ClaimNextCallback to requireCallbackUpdate).
use test_defense_validation.Base.{
  ℕ, ◌+◌, Bool, true, false, not, ◌&&◌, ◌||◌, Option, none, some, String, str_eq, [], ◌∷◌, leb, ltb,
  if◌then◌else◌, is_some, ◌==◌,
}
use test_defense_validation.Ledger.Row.{
  Row, CallbackState, pending, delivering, retry, delivered, configuration_failed, is_value,
  is_past, terminal_status, coalesce,
}
use test_defense_validation.Ledger.Update.{Table, update}

-- `callback_state IN ('pending','retry','delivering')`.
abbrev pub is_open : Option CallbackState → Bool
is_open (some pending) = true
is_open (some retry) = true
is_open (some delivering) = true
is_open _ = false

abbrev pub is_delivering : Option CallbackState → Bool
is_delivering (some delivering) = true
is_delivering _ = false

-- The WHERE clause of ClaimNextCallback's SELECT.
unfoldable pub claimable : ℕ → Row → Bool
claimable now r =
    terminal_status r.status
    && is_some r.callback_url
    && is_open r.callback_state
    && is_past r.callback_next_at now
    && (not (is_some r.callback_lease_expires_at) || is_past r.callback_lease_expires_at now)

unfoldable pub claim_callback : ℕ → String → ℕ → String → Row → Option Row
claim_callback now token lease id r =
    if str_eq r.run_id id
    then some (record r {
      delivery = record (r.delivery) {
        callback_state = some delivering;
        callback_lease_token = some token;
        callback_lease_expires_at = some (now + lease);
      };
    })
    else none

-- ORDER BY callback_next_at,created_at LIMIT 1, over rows whose callback_next_at is not NULL.
sooner : Option Row → Row → Option Row
sooner none r = some r
sooner (some q) r =
    let q_at = coalesce q.callback_next_at 0 in
    let r_at = coalesce r.callback_next_at 0 in
    if ltb q_at r_at || q_at == r_at && leb q.created_at r.created_at then some q else some r

unfoldable pub soonest : (Row → Bool) → Table → Option Row → Option Row
unfolding sooner
soonest p [] best = best
soonest p (r ∷ rs) best = soonest p rs (if p r then sooner best r else best)

-- The claimed row's id and callback_attempt as it was before the delivery.
unfoldable pub claim_next_callback :
    ℕ → (Row → Bool) → String → ℕ → Table → Table × Option (String × ℕ)
unfolding claimable claim_callback soonest
claim_next_callback now locked token lease t =
    elim (soonest (λ r. claimable now r && not (locked r)) t none) [
      | none ↦ (t, none)
      | some r ↦ (
        (update (claim_callback now token lease r.run_id) t).0,
        some (r.run_id, r.callback_attempt),
      )
    ]

-- `WHERE run_id=$1 AND callback_state='delivering' AND callback_lease_token=$2`.
abbrev pub owns_callback : String → String → Row → Bool
owns_callback id token r =
    str_eq r.run_id id && is_delivering r.callback_state && is_value r.callback_lease_token token

unfoldable pub callback_succeeded : ℕ → String → String → Row → Option Row
callback_succeeded now id token r =
    if owns_callback id token r
    then some (record r {
      delivery = record (r.delivery) {
        callback_state = some delivered;
        callback_delivered_at = some now;
        callback_attempt = r.callback_attempt + 1;
        callback_last_error = none;
        callback_lease_token = none;
        callback_lease_expires_at = none;
      };
    })
    else none

unfoldable pub callback_failed : ℕ → String → String → ℕ → String → Row → Option Row
callback_failed now id token delay reason r =
    if owns_callback id token r
    then some (record r {
      delivery = record (r.delivery) {
        callback_state = some retry;
        callback_attempt = r.callback_attempt + 1;
        callback_next_at = some (now + delay);
        callback_last_error = some reason;
        callback_lease_token = none;
        callback_lease_expires_at = none;
      };
    })
    else none

unfoldable pub callback_configuration_failed : ℕ → String → String → String → Row → Option Row
callback_configuration_failed now id token reason r =
    if owns_callback id token r
    then some (record r {
      delivery = record (r.delivery) {
        callback_state = some configuration_failed;
        callback_attempt = r.callback_attempt + 1;
        callback_configuration_failed_at = some now;
        callback_last_error = some reason;
        callback_lease_token = none;
        callback_lease_expires_at = none;
      };
    })
    else none
