-- ===== src/Ledger/Lease.antt =====
-- Statements under a worker's lease (api/lifecycle_store.go: LeaseNext, Heartbeat, UpdateProgress).
use test_defense_validation.Base.{
  ℕ, ◌+◌, Bool, not, ◌&&◌, ◌||◌, Option, none, some, String, str_eq, [], ◌∷◌, leb, ltb,
  if◌then◌else◌, is_some,
}
use test_defense_validation.Ledger.Row.{
  Row, running, is_value, is_past, is_future, is_queued, is_running, coalesce,
}
use test_defense_validation.Ledger.Update.{Table, update}

-- `WHERE run_id=$1 AND worker_id=$2 AND lease_token=$3 AND status='running'`.
abbrev pub holds : String → String → String → Row → Bool
holds id worker token r =
    str_eq r.run_id id
    && is_value r.worker_id worker
    && is_value r.lease_token token
    && is_running r.status

-- The same `AND lease_expires_at>now()`.
abbrev pub owns : ℕ → String → String → String → Row → Bool
owns now id worker token r = holds id worker token r && is_future r.lease_expires_at now

-- The WHERE clause of LeaseNext's SELECT.
unfoldable pub leasable : ℕ → ℕ → Row → Bool
leasable now max_attempts r =
    (not r.cancel_requested || r.publication_pending)
    && (ltb r.attempt max_attempts || is_some r.response)
    && leb (coalesce r.publication_retry_at r.created_at) now
    && (is_queued r.status || is_running r.status && is_past r.lease_expires_at now)

-- The SET clause of LeaseNext's UPDATE, and its WHERE clause.
unfoldable pub claim : ℕ → String → String → ℕ → String → Row → Option Row
claim now worker token lease id r =
    if str_eq r.run_id id && (not r.cancel_requested || r.publication_pending)
    then some (record r {
      status = running;
      started_at = some (coalesce r.started_at now);
      updated_at = now;
      worker_id = some worker;
      lease_token = some token;
      lease_expires_at = some (now + lease);
      last_heartbeat = some now;
      attempt = r.attempt + 1;
      publication_retry_at = none;
      progress_phase = if is_some r.response then "publishing" else "executing";
      progress_message =
          if is_some r.response
          then "Publishing immutable result"
          else "Defense validation in progress";
    })
    else none

-- ORDER BY created_at LIMIT 1.
older : Option Row → Row → Option Row
older none r = some r
older (some q) r = if leb q.created_at r.created_at then some q else some r

-- FOR UPDATE SKIP LOCKED: `locked` tells the rows that other transactions hold.
unfoldable pub oldest : (Row → Bool) → Table → Option Row → Option Row
unfolding older
oldest p [] best = best
oldest p (r ∷ rs) best = oldest p rs (if p r then older best r else best)

unfoldable pub lease_next :
    ℕ → (Row → Bool) → String → String → ℕ → ℕ → Table → Table × Option String
unfolding leasable claim oldest
lease_next now locked worker token lease max_attempts t =
    elim (oldest (λ r. leasable now max_attempts r && not (locked r)) t none) [
      | none ↦ (t, none)
      | some r ↦ ((update (claim now worker token lease r.run_id) t).0, some r.run_id)
    ]

unfoldable pub heartbeat : ℕ → String → String → String → ℕ → Row → Option Row
heartbeat now id worker token lease r =
    if owns now id worker token r
    then some (record r {
      last_heartbeat = some now;
      lease_expires_at = some (now + lease);
      updated_at = now;
    })
    else none

unfoldable pub update_progress : ℕ → String → String → String → String → String → Row → Option Row
update_progress now id worker token phase message r =
    if owns now id worker token r
    then some (record r { progress_phase = phase; progress_message = message; updated_at = now })
    else none
